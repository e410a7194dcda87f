-- ===== src/Deploy/Labels/Laws.antt =====
-- What the cache of labels promises.
use temporal_serverless_rain.Base.{
  ◌≡◌, refl, sym, ◌∙◌, ap, inl, inr, Bool-cases, Option-cases, String, str_eq, eq_iff, eq_refl,
  false, List, [], ◌∷◌, none, some,
}
use temporal_serverless_rain.Deploy.Labels.{
  Described, failed, labelled, Cache, lookup, ask, or_ask, label,
}

kept_by_add :
    (b b' l l' : String) (c : Cache)
    → lookup b c ≡ none
    → lookup b' c ≡ some l'
    → lookup b' ((b, l) ∷ c) ≡ some l'
unfolding lookup
kept_by_add b b' l l' c m h = elim (Bool-cases (str_eq b b')) [
  | inl e ↦
      let clash : none ≡ some l' = sym m ∙ ap (λ x. lookup x c) ((eq_iff b b').0 e) ∙ h in
      absurd (cc)
  | inr e ↦ rw (e, lookup) h
]

kept_by_ask :
    (s : Described) (b b' l' : String) (c : Cache)
    → lookup b c ≡ none
    → lookup b' c ≡ some l'
    → lookup b' (ask s b c).1 ≡ some l'
unfolding ask
kept_by_ask failed b b' l' c m h = h
kept_by_ask (labelled l) b b' l' c m h = elim (Bool-cases (str_eq l "")) [
  | inl e ↦ rw (e, ask) h
  | inr e ↦ rw (e, ask) (kept_by_add b b' l l' c m h)
]

kept_by_label :
    (s : Described) (b b' l' : String) (c : Cache)
    → lookup b' c ≡ some l'
    → lookup b' (label s b c).1 ≡ some l'
unfolding label or_ask
kept_by_label s b b' l' c h = elim (Bool-cases (str_eq b "")) [
  | inl e ↦ rw (e, label) h
  | inr e ↦ elim (Option-cases (lookup b c)) [
    | inl m ↦ rw (e, label) (rw (m, or_ask) (kept_by_ask s b b' l' c m h))
    | inr (l, k) ↦ rw (e, label) (rw (k, or_ask) h)
  ]
]

-- The cache after a sequence of calls, each with what the server would say.
pub after_calls : List (Described × String) → Cache → Cache
after_calls [] c = c
after_calls ((s, b) ∷ calls) c = after_calls calls (label s b c).1

kept_by_calls :
    (calls : List (Described × String)) (b l : String) (c : Cache)
    → lookup b c ≡ some l
    → lookup b (after_calls calls c) ≡ some l
unfolding after_calls
kept_by_calls [] b l c h = h
kept_by_calls ((s, x) ∷ calls) b l c h =
    kept_by_calls calls b l (label s x c).1 (kept_by_label s x b l c h)

hit :
    (s : Described) (b l : String) (c : Cache)
    → str_eq b "" ≡ false
    → lookup b c ≡ some l
    → label s b c ≡ (l, c)
unfolding label or_ask
hit s b l c e h = rw (e, label) (rw (h, or_ask) refl)

-- A Build ID that has a label once keeps it: if the server gives a non-empty label to a Build ID
-- that is not empty and not yet known, that label is the answer, and it is the answer again after
-- any later calls, whatever the server says then, and without asking it.
pub label_permanent :
    (b l : String) (c : Cache) (calls : List (Described × String)) (s : Described)
    → str_eq b "" ≡ false
    → str_eq l "" ≡ false
    → lookup b c ≡ none
    → ((label (labelled l) b c).0 ≡ l)
      × (label s b (after_calls calls (label (labelled l) b c).1)
          ≡ (l, after_calls calls (label (labelled l) b c).1))
unfolding label or_ask ask lookup
label_permanent b l c calls s nb nl m =
    let asked : label (labelled l) b c ≡ (l, (b, l) ∷ c) =
      rw (nb, label) (rw (m, or_ask) (rw (nl, ask) refl)) in
    let known : lookup b ((b, l) ∷ c) ≡ some l = rw (eq_refl b) refl in
    rw asked (
      refl,
      hit s b l (after_calls calls ((b, l) ∷ c)) nb (kept_by_calls calls b l ((b, l) ∷ c) known),
    )
