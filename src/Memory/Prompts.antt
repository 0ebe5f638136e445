-- ===== src/Memory/Prompts.antt =====
-- app/services/prompt_service.py and app/repositories/prompt_repository.py.
use aiplatform.Shared.{
  ℕ, suc, Bool, ◌&&◌, not, Option, none, some, List, [], ◌∷◌, ◌++◌, Text, codes, ◌==◌, leb,
  same_text, first_where, select, is_filled, if◌then◌else◌,
}
use aiplatform.Models.{AgentOs, Team, Agent, Prompt, PromptStatus}
use aiplatform.State.{Db}

-- `_resolve_prompt_content`
unfoldable pub resolve_prompt_content : Option ℕ → Db → Option Text
resolve_prompt_content none d = none
resolve_prompt_content (some id) d =
    elim (first_where (λ p. p.id == id && not p.deleted) d.prompts) [
      | none ↦ none
      | some p ↦ some p.content
    ]

-- `f"# ... ({code})\n{prompt}"`, if there is a prompt that is not empty.
unfoldable pub section_of : Text → Text → Option Text → List Text
section_of title code none = []
section_of title code (some prompt) =
    if is_filled prompt
    then (title ++ (codes " (" ++ (code ++ (codes ")" ++ 10 ∷ prompt)))) ∷ []
    else []

-- `"\n\n".join(sections)`
unfoldable pub join_sections : List Text → Text
join_sections [] = []
join_sections (s ∷ []) = s
join_sections (s ∷ t ∷ ts) = s ++ 10 ∷ 10 ∷ join_sections (t ∷ ts)

-- `... if sections else default`
unfoldable pub final_prompt : List Text → Text → Text
unfolding join_sections
final_prompt [] default = default
final_prompt (s ∷ ss) default = join_sections (s ∷ ss)

abbrev pub agent_os_section : AgentOs → Db → List Text
agent_os_section os d =
    section_of (codes "# Organization Context") os.code
      (resolve_prompt_content os.shared_prompt_id d)

abbrev pub team_section : Team → Db → List Text
team_section t d =
    section_of (codes "# Team Context") t.code (resolve_prompt_content t.team_prompt_id d)

abbrev pub agent_section : Agent → Db → List Text
agent_section a d =
    section_of (codes "# Agent Instructions") a.code (resolve_prompt_content a.prompt_id d)

unfoldable pub compose : AgentOs → Team → Agent → Db → Text
unfolding resolve_prompt_content section_of final_prompt
compose os t a d =
    final_prompt (agent_os_section os d ++ (team_section t d ++ agent_section a d))
      (codes "You are " ++ (a.name ++ (codes ", an agent within team " ++ (t.name ++ codes "."))))

unfoldable pub compose_team_only : AgentOs → Team → Db → Text
unfolding resolve_prompt_content section_of final_prompt
compose_team_only os t d = final_prompt (agent_os_section os d ++ team_section t d) (
    codes "You are the coordinator for team "
    ++ (t.name
        ++ codes ". Delegate to your team members as appropriate and synthesize their responses."))

unfoldable pub compose_root_only : AgentOs → Db → Text
unfolding resolve_prompt_content section_of final_prompt
compose_root_only os d = final_prompt (agent_os_section os d) (
    codes "You are the router for this AgentOS. "
    ++ codes "Inspect the incoming request and delegate it to the most appropriate team.")

-- `ORDER BY version DESC`
unfoldable pub insert_version : Prompt → List Prompt → List Prompt
insert_version x [] = x ∷ []
insert_version x (y ∷ ys) =
    let rest = insert_version x ys in if leb y.version x.version then x ∷ y ∷ ys else y ∷ rest

unfoldable pub sort_versions : List Prompt → List Prompt
unfolding insert_version
sort_versions [] = []
sort_versions (x ∷ xs) = insert_version x (sort_versions xs)

abbrev pub is_version_of : Text → Prompt → Bool
is_version_of code p = same_text p.code code && not p.deleted

unfoldable pub list_versions : Text → Db → List Prompt
unfolding sort_versions
list_versions code d = sort_versions (select (is_version_of code) d.prompts)

abbrev is_active : Prompt → Bool
is_active p = elim p.status [ PromptStatus.active ↦ Bool.true | _ ↦ Bool.false ]

abbrev first_of : List Prompt → Option Prompt
first_of [] = none
first_of (p ∷ _) = some p

unfoldable pub get_active_by_code : Text → Db → Option Prompt
unfolding sort_versions
get_active_by_code code d =
    first_of (sort_versions (select (λ p. is_version_of code p && is_active p) d.prompts))

unfoldable pub next_of : List Prompt → ℕ
next_of [] = 1
next_of (p ∷ _) = suc p.version

unfoldable pub next_version : Text → Db → ℕ
unfolding list_versions next_of
next_version code d = next_of (list_versions code d)
