-- ===== src/Api/Recover/Laws.antt =====
-- internal/api/recover.go: where orders are moved from and to.
use temporal_serverless_rain.Base.{
  String, str_eq, eq_iff, Bool, true, false, Bool-cases, Option-cases, inl, inr, ◌≡◌, ◌≢◌, refl, ap,
  ◌⊎◌, ◌∷◌, Option, sym, ◌∙◌, none, some, List, [], All,
}
use temporal_serverless_rain.Orders.Version.{parse_version}
use temporal_serverless_rain.Deploy.Types.{Routing}
use temporal_serverless_rain.Deploy.Describe.{Summary, id_of, label_of, routing_of}
use temporal_serverless_rain.Deploy.Describe.Laws.{Exists, resolve_label_lem}
use temporal_serverless_rain.Api.Handlers.{
  Command, recover, Resolved, found, unknown_version, unreachable, resolve, Described, found_or,
}
use temporal_serverless_rain.Api.Recover.{
  RecoverRequest, move_onto, recover_reply, recover_from, handle_recover,
}

-- The versions that an answer of the server has registered.
abbrev pub registered : Described → List Summary
registered none = []
registered (some (c, ss)) = ss

-- The routing of an answer of the server.
abbrev pub HasCurrent : (String → String) → Described → String → String → Type 0
HasCurrent label none good l = ⊥
HasCurrent label (some (c, ss)) good l =
    ((routing_of label c).current_build_id ≡ good) × ((routing_of label c).current_label ≡ l)

-- A command that moves orders from a registered build of the version that was asked for, by the
-- labels of the second answer, to the current build, which has another label by those of the first;
-- and that is another build, unless its label changed in between.
abbrev pub IsRescue :
    (String → String) → (String → String) → String → Described → Described → Command → Type 0
IsRescue label later version first again (recover x) =
    Exists (λ s. (s.build_id ≡ x.bad) × (later s.build_id ≡ version)) (registered again)
    × ((x.good ≢ "")
        × (((l : String) × (HasCurrent label first x.good l × (l ≢ version)))
            × ((x.good ≢ x.bad) ⊎ (later x.good ≢ label x.good))))
IsRescue label later version first again _ = ⊥

differ_of : {a b : String} → str_eq a b ≡ false → a ≢ b
differ_of {a} {b} h q = let clash : true ≡ false = sym ((eq_iff a b).1 q) ∙ h in cc

-- What ResolveLabel finds is registered under the label.
IsFound : (String → String) → Described → String → Resolved → Type 0
IsFound label again version (found b) =
    Exists (λ s. (s.build_id ≡ b) × (label s.build_id ≡ version)) (registered again)
IsFound label again version _ = Unit

resolve-IsFound :
    (label : String → String) (again : Described) (version : String)
    → IsFound label again version (resolve label again version)
unfolding resolve found_or IsFound
resolve-IsFound label none version = tt
resolve-IsFound label (some (c, ss)) version = elim (resolve_label_lem label c ss version) [
  | inl (b, q, x) ↦ rw q x
  | inr n ↦ rw n.0 tt
]

-- The label of a build that is found under it.
labelled :
    (label : String → String) (bad version : String) (ss : List Summary)
    → Exists (λ s. (s.build_id ≡ bad) × (label s.build_id ≡ version)) ss
    → label bad ≡ version
labelled label bad version [] h = elim h [ ]
labelled label bad version (s ∷ ss) (Exists.here _ _ (e, l)) = ap label (sym e) ∙ l
labelled label bad version (s ∷ ss) (Exists.there _ _ h) = labelled label bad version ss h

current_of :
    (label : String → String) (o : Option String) (good l : String)
    → good ≢ ""
    → id_of o ≡ good
    → label_of label o ≡ l
    → label good ≡ l
unfolding id_of label_of
current_of label none good l g e h = absurd (g (sym e))
current_of label (some b) good l g e h = ap label (sym e) ∙ h

-- The label of the build that is current.
current_label :
    (label : String → String) (first : Described) (good l : String)
    → good ≢ ""
    → HasCurrent label first good l
    → label good ≡ l
unfolding routing_of
current_label label none good l g h = absurd h
current_label label (some (c, ss)) good l g h = current_of label c.current good l g h.0 h.1

module _ (label later : String → String) (r : RecoverRequest) (first again : Described) where
  other_build :
      (good bad l : String)
      → Exists (λ s. (s.build_id ≡ bad) × (later s.build_id ≡ r.version)) (registered again)
      → good ≢ ""
      → HasCurrent label first good l
      → l ≢ r.version
      → (good ≢ bad) ⊎ (later good ≢ label good)
  other_build good bad l hb hg hc hl = elim (Bool-cases (str_eq good bad)) [
    | inr e ↦ inl (differ_of e)
    | inl e ↦
        let q : later good ≡ r.version =
          ap later ((eq_iff good bad).0 e) ∙ labelled later bad r.version (registered again) hb in
        let c : label good ≡ l = current_label label first good l hg hc in
        inr (λ h. hl (sym c ∙ sym h ∙ q))
  ]

  move_onto-IsRescue :
      (good l : String) (started : Bool) (bad : Resolved)
      → IsFound later again r.version bad
      → good ≢ ""
      → HasCurrent label first good l
      → l ≢ r.version
      → All (IsRescue label later r.version first again) (move_onto r good started bad).commands
  unfolding move_onto IsFound
  move_onto-IsRescue good l started (found bad) hb hg hc hl =
      ((hb, (hg, ((l, (hc, hl)), other_build good bad l hb hg hc hl))), tt)
  move_onto-IsRescue good l started unknown_version hb hg hc hl = tt
  move_onto-IsRescue good l started unreachable hb hg hc hl = tt

  recover_reply-IsRescue :
      (routing : Routing) (started : Bool) (bad : Resolved)
      → IsFound later again r.version bad
      → HasCurrent label first routing.current_build_id routing.current_label
      → All
          (IsRescue label later r.version first again)
          (recover_reply r routing started bad).commands
  unfolding recover_reply
  recover_reply-IsRescue routing started bad hb hc =
      elim (Bool-cases (str_eq routing.current_build_id "")) [
        | inl e ↦ simp (e) (tt)
        | inr e ↦ simp (e) (elim (Bool-cases (str_eq routing.current_label r.version)) [
          | inl f ↦ simp (f) (tt)
          | inr f ↦ simp (f) (
              move_onto-IsRescue routing.current_build_id routing.current_label started bad hb
                (differ_of e) hc (differ_of f))
        ])
      ]

recover_from-IsRescue :
    (label later : String → String) (r : RecoverRequest) (first again : Described) (started : Bool)
    → All
        (IsRescue label later r.version first again)
        (recover_from label later r first again started).commands
unfolding recover_from
recover_from-IsRescue label later r none again started = tt
recover_from-IsRescue label later r (some (c, ss)) again started =
    recover_reply-IsRescue label later r (some (c, ss)) again (routing_of label c) started
      (resolve later again r.version) (resolve-IsFound later again r.version) (refl, refl)

-- Whatever the server answers to the two calls, and whatever labels it has for the Build IDs at
-- each, a recovery only ever moves orders off a build that the second call finds registered under
-- the version that was asked for, onto the build that the first finds current (there is one), whose
-- label is then another: so never from a build onto itself, unless the label of that build has
-- changed between the two calls, as it does when it could not be read at the first. A request that
-- cannot be met so starts no batch.
pub handle_recover-IsRescue :
    (label later : String → String) (r : RecoverRequest) (first again : Described) (started : Bool)
    → All
        (IsRescue label later r.version first again)
        (handle_recover label later (some r) first again started).commands
unfolding handle_recover
handle_recover-IsRescue label later r first again started =
    elim (Option-cases (parse_version r.version)) [
      | inl n ↦ rw (handle_recover, n) (tt)
      | inr (v, s) ↦
          rw (handle_recover, s) (recover_from-IsRescue label later r first again started)
    ]
