-- ===== src/Routing/Value.antt =====
-- What `json.loads` gives: a dict keeps its keys' order, and a key stands in it once.
use ai_inference_gateway_pla.Base.{
  ℕ, ◌≡◌, ◌≢◌, refl, sym, ◌∙◌, Bool, true, false, Option, none, some, Text, text_eq, text_eq→eq,
  text_eq_refl, if◌then◌else◌, Bool-cases, inl, inr,
}

mutual
  pub data Json : Type 0 where
    null : Json
    boolean : Bool → Json
    number : ℕ → Json
    text : Text → Json
    array : Items → Json
    object : Fields → Json

  pub data Items : Type 0 where
    no_items : Items
    item : Json → Items → Items

  pub data Fields : Type 0 where
    no_fields : Fields
    field : Text → Json → Fields → Fields

-- `d.get(key)`
abbrev pub field_of : Text → Fields → Option Json
field_of key no_fields = none
field_of key (field k v rest) =
    let found = field_of key rest in if text_eq k key then some v else found

-- `d.pop(key, None)`
abbrev pub without : Text → Fields → Fields
without key no_fields = no_fields
without key (field k v rest) =
    let left = without key rest in if text_eq k key then left else field k v left

-- `d[key] = value`
abbrev pub set_field : Text → Json → Fields → Fields
set_field key value no_fields = field key value no_fields
set_field key value (field k v rest) =
    let changed = set_field key value rest in
    if text_eq k key then field k value rest else field k v changed

text_ne : (s t : Text) → s ≢ t → text_eq s t ≡ false
text_ne s t apart = elim (Bool-cases (text_eq s t)) [
  | inl e ↦ absurd (apart (text_eq→eq s t e))
  | inr e ↦ e
]

other_key : (k key other : Text) → text_eq k key ≡ true → key ≢ other → text_eq k other ≡ false
other_key k key other e apart = text_ne k other (λ q. apart (sym (text_eq→eq k key e) ∙ q))

pub field_of-without : (key : Text) (d : Fields) → field_of key (without key d) ≡ none
field_of-without key no_fields = refl
field_of-without key (field k v rest) = elim (Bool-cases (text_eq k key)) [
  | inl e ↦ rw (without, e) (field_of-without key rest)
  | inr e ↦ rw (without, e, field_of, e) (field_of-without key rest)
]

pub field_of-without_other :
    (key other : Text) (d : Fields)
    → key ≢ other
    → field_of other (without key d) ≡ field_of other d
field_of-without_other key other no_fields apart = refl
field_of-without_other key other (field k v rest) apart = elim (Bool-cases (text_eq k key)) [
  | inl e ↦
      let far = other_key k key other e apart in
      rw (e, far) (field_of-without_other key other rest apart)
  | inr e ↦ rw (e, field_of-without_other key other rest apart) refl
]

pub field_of-set_field :
    (key : Text) (value : Json) (d : Fields) → field_of key (set_field key value d) ≡ some value
field_of-set_field key value no_fields = rw (text_eq_refl key)
field_of-set_field key value (field k v rest) = elim (Bool-cases (text_eq k key)) [
  | inl e ↦ rw (e, field_of, e) refl
  | inr e ↦ rw (e, field_of, e) (field_of-set_field key value rest)
]

pub field_of-set_field_other :
    (key other : Text) (value : Json) (d : Fields)
    → key ≢ other
    → field_of other (set_field key value d) ≡ field_of other d
field_of-set_field_other key other value no_fields apart = rw (text_ne key other apart)
field_of-set_field_other key other value (field k v rest) apart =
    elim (Bool-cases (text_eq k key)) [
      | inl e ↦ let far = other_key k key other e apart in rw (e, field_of, far) refl
      | inr e ↦ rw (e, field_of-set_field_other key other value rest apart) refl
    ]
