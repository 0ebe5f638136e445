-- ===== src/Capability/Effective.antt =====
-- What is assigned is read back, and which codes an agent may use.
use aiplatform.Shared.{
  ℕ, ◌≡◌, ◌≢◌, refl, ap, ◌∙◌, ◌⊎◌, ◌↔◌, inl, inr, true, false, not, List, [], ◌∷◌, ◌++◌, map, Text,
  arith, ◌==◌, select, distinct, union, intersection, Member, Bool-cases, ==-refl, Member-append,
  Member-select, Member-intersection, Member-distinct, Member-sorted,
}
use mathlib.Core.Path.{subst}
use aiplatform.Models.{CapabilityAssignment, AgentSkill}
use aiplatform.State.{Db}
use aiplatform.Capability.Assignments.{
  codes_of, assigned_to, replace_codes, get_agent_os_capabilities, get_team_capabilities,
  get_agent_capabilities, get_capability_codes, get_capability_codes_for_agent, joined_codes,
}
use aiplatform.Capability.Service.{effective_of}

codes_of-append :
    (id : ℕ) (s t : List CapabilityAssignment)
    → codes_of id (s ++ t) ≡ codes_of id s ++ codes_of id t
unfolding codes_of
codes_of-append id [] t = refl
codes_of-append id (a ∷ s) t = elim (Bool-cases (a.owner_id == id)) [
  | inl e ↦ rw e (ap (λ (xs : List Text). a.capability_code ∷ xs) (codes_of-append id s t))
  | inr e ↦ rw e (codes_of-append id s t)
]

codes_of-removed :
    (id : ℕ) (t : List CapabilityAssignment)
    → codes_of id (select (λ a. not (a.owner_id == id)) t) ≡ []
unfolding codes_of
codes_of-removed id [] = refl
codes_of-removed id (a ∷ t) = elim (Bool-cases (a.owner_id == id)) [
  | inl e ↦ rw e (codes_of-removed id t)
  | inr e ↦ rw e (rw e (codes_of-removed id t))
]

codes_of-assigned : (id : ℕ) (cs : List Text) → codes_of id (map (assigned_to id) cs) ≡ cs
unfolding codes_of
codes_of-assigned id [] = refl
codes_of-assigned id (c ∷ cs) =
    rw (==-refl id) (ap (λ (xs : List Text). c ∷ xs) (codes_of-assigned id cs))

codes_of-others :
    (id p : ℕ) (t : List CapabilityAssignment)
    → p ≢ id
    → codes_of p (select (λ a. not (a.owner_id == id)) t) ≡ codes_of p t
unfolding codes_of
codes_of-others id p [] h = refl
codes_of-others id p (a ∷ t) h = elim (Bool-cases (a.owner_id == id)) [
  | inl e ↦
      let n : (a.owner_id == p) ≡ false = ground (arith, h, e) in
      rw (e, n) (codes_of-others id p t h)
  | inr e ↦ elim (Bool-cases (a.owner_id == p)) [
    | inl q ↦
        rw e (rw q (ap (λ (xs : List Text). a.capability_code ∷ xs) (codes_of-others id p t h)))
    | inr q ↦ rw e (rw q (codes_of-others id p t h))
  ]
]

codes_of-foreign : (id p : ℕ) (cs : List Text) → p ≢ id → codes_of p (map (assigned_to id) cs) ≡ []
unfolding codes_of
codes_of-foreign id p [] h = refl
codes_of-foreign id p (c ∷ cs) h =
    let n : (id == p) ≡ false = ground (arith, h) in rw n (codes_of-foreign id p cs h)

++-empty : (xs : List Text) → xs ++ [] ≡ xs
++-empty [] = refl
++-empty (x ∷ xs) = ap (λ (ys : List Text). x ∷ ys) (++-empty xs)

-- The codes that were set for an owner are the ones that are read back, each once, and the codes
-- of every other owner are as before.
pub replace_codes-codes_of :
    (id p : ℕ) (codes : List Text) (t : List CapabilityAssignment)
    → p ≢ id
    → (codes_of id (replace_codes id codes t) ≡ distinct codes)
      × (codes_of p (replace_codes id codes t) ≡ codes_of p t)
unfolding replace_codes
replace_codes-codes_of id p codes t h =
    let rest = select (λ a. not (a.owner_id == id)) t in
    let new = map (assigned_to id) (distinct codes) in
    (
      codes_of-append id rest new
          ∙ ap (λ (xs : List Text). xs ++ codes_of id new) (codes_of-removed id t)
          ∙ codes_of-assigned id (distinct codes),
      codes_of-append p rest new
          ∙ ap (λ (xs : List Text). codes_of p rest ++ xs)
              (codes_of-foreign id p (distinct codes) h)
          ∙ ++-empty (codes_of p rest)
          ∙ codes_of-others id p t h,
    )

-- A code of a skill that is assigned to the agent.
abbrev pub FromSkill : ℕ → Db → Text → Type 0
FromSkill id d c =
    (l : AgentSkill) × Member l d.agent_skills
    × (l.agent_id ≡ id)
    × Member c (get_capability_codes l.skill_id d)

joined_from :
    (c : Text) (ls : List AgentSkill) (t : List CapabilityAssignment)
    → Member c (joined_codes ls t)
    → (l : AgentSkill) × Member l ls × Member c (codes_of l.skill_id t)
unfolding joined_codes
joined_from c [] t m = elim m [ ]
joined_from c (l ∷ ls) t m =
    elim ((Member-append c (codes_of l.skill_id t) (joined_codes ls t)).0 m) [
      | inl h ↦ (l, inl refl, h)
      | inr h ↦ let (k, n, g) = joined_from c ls t h in (k, inr n, g)
    ]

joined_into :
    (c : Text) (ls : List AgentSkill) (t : List CapabilityAssignment) (l : AgentSkill)
    → Member l ls
    → Member c (codes_of l.skill_id t)
    → Member c (joined_codes ls t)
unfolding joined_codes
joined_into c [] t l n m = elim n [ ]
joined_into c (k ∷ ls) t l (inl e) m =
    (Member-append c (codes_of k.skill_id t) (joined_codes ls t)).1
      (inl (subst (λ (x : AgentSkill). Member c (codes_of x.skill_id t)) e m))
joined_into c (k ∷ ls) t l (inr n) m =
    (Member-append c (codes_of k.skill_id t) (joined_codes ls t)).1 (inr (joined_into c ls t l n m))

skill_codes_iff :
    (id : ℕ) (d : Db) (c : Text) → Member c (get_capability_codes_for_agent id d) ↔ FromSkill id d c
unfolding get_capability_codes_for_agent get_capability_codes
skill_codes_iff id d c =
    let links = select (λ l. l.agent_id == id) d.agent_skills in
    let (f, g) = Member-distinct c (joined_codes links d.skill_capabilities) in
    (
      λ m.
          let (l, n, h) = joined_from c links d.skill_capabilities (f m) in
          let (k, e) = (Member-select (λ x. x.agent_id == id) l d.agent_skills).0 n in
          (l, k, ground (arith, e), h),
      λ (l, k, e, h).
          let q : (l.agent_id == id) ≡ true = ground (arith, e) in
          g (
            joined_into c links d.skill_capabilities l
              ((Member-select (λ x. x.agent_id == id) l d.agent_skills).1 (k, q)) h),
    )

-- What an agent may use at its own level: its own codes, and those of its skills.
abbrev pub AtAgent : ℕ → Db → Text → Type 0
AtAgent id d c = Member c (get_agent_capabilities id d) ⊎ FromSkill id d c

abbrev pub Effective : ℕ → ℕ → ℕ → Db → Text → Type 0
Effective os team agent d c =
    Member c (get_agent_os_capabilities os d)
    × Member c (get_team_capabilities team d)
    × AtAgent agent d c

agent_codes_iff :
    (id : ℕ) (d : Db) (c : Text)
    → Member c
        (union (distinct (get_agent_capabilities id d)) (get_capability_codes_for_agent id d))
      ↔ AtAgent id d c
agent_codes_iff id d c =
    let own = get_agent_capabilities id d in
    let skills = get_capability_codes_for_agent id d in
    let (f, g) = Member-distinct c (distinct own ++ skills) in
    let (f', g') = Member-append c (distinct own) skills in
    let (f'', g'') = Member-distinct c own in
    let (h, h') = skill_codes_iff id d c in
    (
      λ m. elim (f' (f m)) [ inl a ↦ inl (f'' a) | inr b ↦ inr (h b) ],
      λ m. g (g' (elim m [ inl a ↦ inl (g'' a) | inr b ↦ inr (h' b) ])),
    )

-- A code is effective for an agent just when it is assigned to the AgentOS, and to the team, and
-- to the agent or to one of its skills.
pub effective_of_iff :
    (os team agent : ℕ) (d : Db) (c : Text)
    → Member c (effective_of os team agent d).effective_capabilities ↔ Effective os team agent d c
unfolding effective_of
effective_of_iff os team agent d c =
    let a = get_agent_os_capabilities os d in
    let t = get_team_capabilities team d in
    let g =
      union (distinct (get_agent_capabilities agent d)) (get_capability_codes_for_agent agent d) in
    let (s, s') = Member-sorted c (intersection (intersection (distinct a) (distinct t)) g) in
    let (i, i') = Member-intersection c (intersection (distinct a) (distinct t)) g in
    let (j, j') = Member-intersection c (distinct a) (distinct t) in
    let (x, x') = Member-distinct c a in
    let (y, y') = Member-distinct c t in
    let (z, z') = agent_codes_iff agent d c in
    (
      λ m. let (m₁, m₂) = i (s m) in let (k, l) = j m₁ in (x k, y l, z m₂),
      λ (k, l, m). s' (i' (j' (x' k, y' l), z' m)),
    )
