-- ===== src/Rollout/World/Laws.antt =====
-- Rules for runs: a predicate that activations keep holds where a run ends or is blocked, and a run
-- that ends has consumed activations.
use temporal_serverless_rain.Base.{
  ℕ, ◌≤◌, ◌<◌, List, [], ◌∷◌, Option, Option-cases, Bool-cases, Bool, false, ◌≡◌, refl, inl, inr,
  length, arith,
}
use temporal_serverless_rain.Rollout.Control.{Control}
use temporal_serverless_rain.Rollout.World.{
  World, Outcome, done, blocked, exhausted, M, bind, Activation, Reply, Command, arrive, await_from,
  receive_reply, execute, issue, await, await_with_timeout,
}

-- `Q` holds where the run ends, and `B` where it is blocked.
abbrev pub Settles : {A : Type 0} → (A → World → Type 0) → (World → Type 0) → Outcome A → Type 0
Settles Q B (done a w) = Q a w
Settles Q B (blocked w) = B w
Settles Q B exhausted = Unit

-- `I` holds wherever the run stops.
abbrev pub Leads : {A : Type 0} → (World → Type 0) → Outcome A → Type 0
Leads I = Settles (λ _ w. I w) I

pub bind-Settles :
    {A B : Type 0} (Q : A → World → Type 0) (R : B → World → Type 0) (I : World → Type 0)
    (o : Outcome A) (f : A → M B)
    → Settles Q I o
    → ((a : A) (w : World) → Q a w → Settles R I (f a w))
    → Settles R I (bind o f)
bind-Settles Q R I (done a w) f h k = k a w h
bind-Settles Q R I (blocked w) f h k = h
bind-Settles Q R I exhausted f h k = tt

pub Settles-mono :
    {A : Type 0} (Q R : A → World → Type 0) (I J : World → Type 0) (o : Outcome A)
    → ((a : A) (w : World) → Q a w → R a w)
    → ((w : World) → I w → J w)
    → Settles Q I o
    → Settles R J o
Settles-mono Q R I J (done a w) q i h = q a w h
Settles-mono Q R I J (blocked w) q i h = i w h
Settles-mono Q R I J exhausted q i h = tt

pub bind-Leads :
    {A B : Type 0} (I : World → Type 0) (o : Outcome A) (f : A → M B)
    → Leads I o
    → ((a : A) (w : World) → I w → Leads I (f a w))
    → Leads I (bind o f)
bind-Leads I o f h k = bind-Settles (λ _ w. I w) (λ _ w. I w) I o f h k

-- Activations, and the end of the script, keep a predicate.
pub record IsStable (I : World → Type 0) : Type 0 where
  pub arrives : (a : Activation) (rest : List Activation) (w : World) → I w → I (arrive a rest w)
  pub starves : (w : World) → I w → I (record w { feed = [] })

module _ (I : World → Type 0) (stable : IsStable I) where
  await_from-Leads :
      {A : Type 0} (ready : World → Option Reply → Option A) (feed : List Activation) (w : World)
      → I w
      → Leads I (await_from ready feed w)
  unfolding await_from
  await_from-Leads ready [] w h = stable.starves w h
  await_from-Leads ready (a ∷ rest) w h = elim (Option-cases (ready (arrive a rest w) a.reply)) [
    | inl e ↦
        rw (e, await_from)
          (await_from-Leads ready rest (arrive a rest w) (stable.arrives a rest w h))
    | inr (x, e) ↦ rw (e, await_from) (stable.arrives a rest w h)
  ]

  pub receive_reply-Leads :
      {A : Type 0} (decode : Reply → Option A) (w : World) → I w → Leads I (receive_reply decode w)
  unfolding receive_reply
  receive_reply-Leads decode w h = await_from-Leads _ w.feed w h

  pub execute-Leads :
      {A : Type 0} (c : Command) (decode : Reply → Option A) (w : World)
      → I (issue c w)
      → Leads I (execute c decode w)
  unfolding execute
  execute-Leads c decode w h = receive_reply-Leads decode (issue c w) h

  pub await-Leads : (test : Control → Bool) (w : World) → I w → Leads I (await test w)
  unfolding await
  await-Leads test w h = elim (Bool-cases (test w.ctrl)) [
    | inl e ↦ rw e h
    | inr e ↦ rw e (await_from-Leads _ w.feed w h)
  ]

  pub await_with_timeout-Leads :
      (test : Control → Bool) (w : World) → I w → Leads I (await_with_timeout test w)
  unfolding await_with_timeout
  await_with_timeout-Leads test w h = elim (Bool-cases (test w.ctrl)) [
    | inl e ↦ rw e h
    | inr e ↦ rw e (await_from-Leads _ w.feed w h)
  ]

-- The run has fuel to its end, and `Q` holds there if it ends.
abbrev pub Ends : {A : Type 0} → (A → World → Type 0) → Outcome A → Type 0
Ends Q (done a w) = Q a w
Ends Q (blocked w) = Unit
Ends Q exhausted = ⊥

-- It ends with fewer than `m` activations left, or with `m` at most.
abbrev pub Costs : {A : Type 0} → ℕ → Outcome A → Type 0
Costs m = Ends (λ _ w. length w.feed < m)

abbrev pub Leaves : {A : Type 0} → ℕ → Outcome A → Type 0
Leaves m = Ends (λ _ w. length w.feed ≤ m)

pub bind-Ends :
    {A B : Type 0} (Q : A → World → Type 0) (R : B → World → Type 0) (o : Outcome A) (f : A → M B)
    → Ends Q o
    → ((a : A) (w : World) → Q a w → Ends R (f a w))
    → Ends R (bind o f)
bind-Ends Q R (done a w) f h k = k a w h
bind-Ends Q R (blocked w) f h k = tt
bind-Ends Q R exhausted f h k = h

pub Ends-mono :
    {A : Type 0} (Q R : A → World → Type 0) (o : Outcome A)
    → ((a : A) (w : World) → Q a w → R a w)
    → Ends Q o
    → Ends R o
Ends-mono Q R (done a w) k h = k a w h
Ends-mono Q R (blocked w) k h = tt
Ends-mono Q R exhausted k h = h

await_from-Costs :
    {A : Type 0} (ready : World → Option Reply → Option A) (feed : List Activation) (w : World)
    (m : ℕ)
    → length feed ≤ m
    → Costs m (await_from ready feed w)
unfolding await_from arrive
await_from-Costs ready [] w m h = tt
await_from-Costs ready (a ∷ rest) w m h = elim (Option-cases (ready (arrive a rest w) a.reply)) [
  | inl e ↦ rw (e, await_from, Ends) (await_from-Costs ready rest (arrive a rest w) m (omega arith))
  | inr (x, e) ↦ rw (e, await_from, Ends) (omega arith)
]

-- A reply costs an activation.
pub receive_reply-Costs :
    {A : Type 0} (decode : Reply → Option A) (w : World) (m : ℕ)
    → length w.feed ≤ m
    → Costs m (receive_reply decode w)
unfolding receive_reply
receive_reply-Costs decode w m h = await_from-Costs _ w.feed w m h

pub execute-Costs :
    {A : Type 0} (c : Command) (decode : Reply → Option A) (w : World) (m : ℕ)
    → length w.feed ≤ m
    → Costs m (execute c decode w)
unfolding execute
execute-Costs c decode w m h = receive_reply-Costs decode (issue c w) m h

pub await-Costs :
    (test : Control → Bool) (w : World) (m : ℕ)
    → test w.ctrl ≡ false
    → length w.feed ≤ m
    → Costs m (await test w)
unfolding await
await-Costs test w m e h = rw (e, Ends) (await_from-Costs _ w.feed w m h)

pub await_with_timeout-Costs :
    (test : Control → Bool) (w : World) (m : ℕ)
    → length w.feed < m
    → Costs m (await_with_timeout test w)
unfolding await_with_timeout
await_with_timeout-Costs test w m h = elim (Bool-cases (test w.ctrl)) [
  | inl e ↦ rw (e, Ends) h
  | inr e ↦ rw (e, Ends) (await_from-Costs _ w.feed w m (omega arith))
]

-- The run has fuel to where it stops, and `I` holds there.
abbrev pub Stops : {A : Type 0} → (World → Type 0) → Outcome A → Type 0
Stops I (done a w) = I w
Stops I (blocked w) = I w
Stops I exhausted = ⊥

pub Leads-Stops :
    {A : Type 0} (I : World → Type 0) (o : Outcome A) → Ends (λ _ _. Unit) o → Leads I o → Stops I o
Leads-Stops I (done a w) f h = h
Leads-Stops I (blocked w) f h = h
Leads-Stops I exhausted f h = f

Leads-Ends :
    {A : Type 0} (I : World → Type 0) (o : Outcome A)
    → Ends (λ _ _. Unit) o
    → Leads I o
    → Ends (λ _ w. I w) o
Leads-Ends I (done a w) f h = h
Leads-Ends I (blocked w) f h = tt
Leads-Ends I exhausted f h = f

-- What a command leaves when it has been answered: itself in the log, and the state as it was.
abbrev pub Logged : Command → World → World → Type 0
Logged c w w' = (w'.commands ≡ c ∷ w.commands) × (w'.state ≡ w.state)

pub execute-Logged :
    {A : Type 0} (c : Command) (decode : Reply → Option A) (w : World)
    → Ends (λ _ w'. Logged c w w') (execute c decode w)
unfolding arrive
execute-Logged c decode w =
    Leads-Ends (Logged c w) _
      (Ends-mono _ (λ _ _. Unit) _ (λ _ _ _. tt)
        (execute-Costs c decode w (length w.feed) (omega arith)))
      (execute-Leads (Logged c w) (record { arrives = λ a rest w' h. h; starves = λ w' h. h }) c
        decode w (refl, refl))

pub Ends-Settles :
    {A : Type 0} (Q : A → World → Type 0) (o : Outcome A) → Ends Q o → Settles Q (λ _. Unit) o
Ends-Settles Q (done a w) h = h
Ends-Settles Q (blocked w) h = tt
Ends-Settles Q exhausted h = tt

pub Settles-Ends :
    {A : Type 0} (Q : A → World → Type 0) (o : Outcome A)
    → Ends (λ _ _. Unit) o
    → Settles Q (λ _. Unit) o
    → Ends Q o
Settles-Ends Q (done a w) f h = h
Settles-Ends Q (blocked w) f h = tt
Settles-Ends Q exhausted f h = f
