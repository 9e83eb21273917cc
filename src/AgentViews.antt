-- ===== src/AgentViews.antt =====
-- `AgentCreateView.post` of apps/agents/views.py. Django's slugify and the exception of an
-- insertion, such as that of a name of more than 255 characters, are parameters; that two requests
-- may create at the same time is left out.
use ai_inference_gateway_pla.Base.{
  ℕ, zero, suc, ◌≡◌, Bool, true, false, ◌||◌, Option, none, some, List, [], ◌∷◌, ◌++◌, map, Text,
  codes, length, text_eq, strip, decimal, if◌then◌else◌,
}
use ai_inference_gateway_pla.Base.Result.{Result, err, ok}
use ai_inference_gateway_pla.Chunker.{is_empty}
pub mod Slug
mod Tests

-- The JSON object of the request, with what it has; of `max_results`, what `int` makes of it.
pub record AgentData : Type 0 where
  pub name : Option Text
  pub type : Option Text
  pub instructions : Option Text
  pub search_query : Option Text
  pub schedule_cron : Option Text
  pub digest_frequency : Option Text
  pub llm_backend_preference : Option Text
  pub sources : Option (List Text)
  pub max_results : Option (Result Text ℕ)

pub record AgentRow : Type 0 where
  pub name : Text
  pub slug : Text
  pub type : Text
  pub instructions : Text
  pub search_query : Text
  pub schedule_cron : Text
  pub digest_frequency : Text
  pub llm_backend_preference : Text
  pub sources : List Text
  pub max_results : ℕ
  pub enabled : Bool

-- `raised` is an exception, which the server answers.
pub data Response : Type 0 where
  name_required : Response
  created : Text → Response
  raised : Text → Response

-- `data.get(key, default)`
abbrev pub get : {A : Type 0} → Option A → A → A
get none default = default
get (some value) default = value

abbrev pub slugs_of : List AgentRow → List Text
slugs_of rows = map (λ (r : AgentRow). r.slug) rows

-- `Agent.objects.filter(slug=slug).exists()`
abbrev pub exists : Text → List Text → Bool
exists slug [] = false
exists slug (other ∷ others) = text_eq slug other || exists slug others

-- The loop, with the rounds that are left; `none` if there are too few.
pub free_slug : ℕ → List Text → Text → Text → ℕ → Option Text
free_slug zero slugs slug_base slug counter = none
free_slug (suc rounds) slugs slug_base slug counter =
    let later =
      free_slug rounds slugs slug_base (slug_base ++ (codes "-" ++ decimal counter))
        (suc counter) in
    if exists slug slugs then later else some slug

abbrev pub new_agent : AgentData → Text → Text → ℕ → AgentRow
new_agent body name slug max_results = record {
  name = name;
  slug = slug;
  type = get body.type (codes "market_research");
  instructions = get body.instructions [];
  search_query = get body.search_query [];
  schedule_cron = get body.schedule_cron [];
  digest_frequency = get body.digest_frequency (codes "disabled");
  llm_backend_preference = get body.llm_backend_preference (codes "llamacpp");
  sources = get body.sources [];
  max_results = max_results;
  enabled = true;
}

module _ (slugify : Text → Text) (insert_raises : AgentRow → Option Text) where
  -- `Agent.objects.create`
  abbrev pub insert_agent : List AgentRow → AgentRow → List AgentRow × Option Response
  insert_agent rows agent = elim (insert_raises agent) [
    | none ↦ (rows ++ (agent ∷ []), some (created agent.slug))
    | some exception ↦ (rows, some (raised exception))
  ]

  -- The call with its arguments, of which `int(...)` may raise.
  abbrev pub create_agent :
      List AgentRow → AgentData → Text → Text → Result Text ℕ → List AgentRow × Option Response
  create_agent rows body name slug (err exception) = (rows, some (raised exception))
  create_agent rows body name slug (ok max_results) =
      insert_agent rows (new_agent body name slug max_results)

  -- What follows the loop.
  abbrev pub after_loop :
      List AgentRow → AgentData → Text → Option Text → List AgentRow × Option Response
  after_loop rows body name none = (rows, none)
  after_loop rows body name (some slug) =
      create_agent rows body name slug (get body.max_results (ok 25))

  -- `post`. The loop has one round more than there are agents.
  unfoldable pub post : List AgentRow → AgentData → List AgentRow × Option Response
  unfolding free_slug
  post rows body =
      let name = strip (get body.name []) in
      if is_empty name
      then (rows, some name_required)
      else after_loop rows body name
          (free_slug (suc (length rows)) (slugs_of rows) (slugify name) (slugify name) 1)
