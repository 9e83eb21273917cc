-- ===== src/AgentViews/Tests.antt =====
-- A third agent of the same name.
use ai_inference_gateway_pla.Base.{
  Option, ltb, length, if◌then◌else◌, ◌≡◌, refl, none, some, List, [], ◌∷◌, Text, codes, strip,
  decimal, lstrip, is_space,
}
use ai_inference_gateway_pla.Base.Result.{ok}
use ai_inference_gateway_pla.AgentViews.{AgentData, AgentRow, created, get, new_agent, post}
use ai_inference_gateway_pla.AgentViews.Slug.{IsPosted, post-IsPosted}

abbrev body : AgentData
body = record {
  name = some (codes " jobs ");
  type = none;
  instructions = none;
  search_query = none;
  schedule_cron = none;
  digest_frequency = none;
  llm_backend_preference = none;
  sources = none;
  max_results = some (ok 5);
}

abbrev rows : List AgentRow
rows =
    new_agent body (codes "jobs") (codes "jobs") 5
    ∷ new_agent body (codes "jobs") (codes "jobs-1") 5
    ∷ []

-- The columns have room for 255 characters.
abbrev too_long : AgentRow → Option Text
too_long agent = if ltb 255 (length agent.name) then some (codes "value too long") else none

abbrev slugify : Text → Text
slugify name = name

third : (post slugify too_long rows body).1 ≡ some (created (codes "jobs-2"))
unfolding post strip lstrip is_space decimal
third = refl

post-IsPosted_example :
    IsPosted slugify too_long rows body (strip (get body.name [])) (post slugify too_long rows body)
post-IsPosted_example = post-IsPosted slugify too_long rows body
