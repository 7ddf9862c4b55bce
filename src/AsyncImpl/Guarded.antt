-- ===== src/AsyncImpl/Guarded.antt =====
-- The guard of the future of crates/epitelesis/src/async_impl.rs: when it cancels, and what the
-- future answers.
use epitelesis.Base.{
  ℕ, String, ◌≡◌, ◌⊎◌, inl, inr, refl, sym, ap, subst, ◌∙◌, true, Option, none, some, List, ◌∷◌,
  Option-cases,
}
use epitelesis.Platform.Result.{Result, ok, err, Result-cases}
use epitelesis.Platform.Os.{Os}
use epitelesis.Output.{Output}
use epitelesis.Error.{Error}
use epitelesis.Policy.Types.{Ready}
use epitelesis.Command.{Command}
use epitelesis.Command.Prepare.{Host}
use epitelesis.Supervisor.Execute.{execute}
use epitelesis.AsyncImpl.{
  Runtime, CancelOnDrop, SpawnFuture, unstarted, awaiting, Polled, pending, ready, spawn,
  join_failure, drop_guard, poll_awaiting, poll, drop_future,
}

-- The result of a run of `execute` on a command.
pub record Executed {W : Type 0} (os : Os W) (c : Command Ready) (r : Result Output Error)
    : Type 0 where
  pub fuel : ℕ
  pub host : Host
  pub before : W
  pub after : W
  pub runs : execute os fuel host c before ≡ some (r, after)

-- What is documented of a runtime: a task has the command and the flag that it was spawned with, and
-- a join that succeeds gives what the task returned, a run of `execute` on its command, with the
-- operating system as one with that flag sees it. The log of a world has the flags that were set,
-- the last one first.
pub record Joins {W JoinHandle : Type 0} (os : ℕ → Os W) (runtime : Runtime W JoinHandle)
    (job : JoinHandle → Command Ready) (flag_of : JoinHandle → ℕ) (log : W → List ℕ) : Type 0 where
  pub spawns : (flag : ℕ) (c : Command Ready) (w : W) → job (runtime.spawn_blocking flag c w).0 ≡ c
  pub shares :
      (flag : ℕ) (c : Command Ready) (w : W) → flag_of (runtime.spawn_blocking flag c w).0 ≡ flag
  pub joins :
      (worker : JoinHandle) (w : W) (r : Result Output Error)
      → (runtime.poll_join worker w).0 ≡ some (ok r)
      → Executed (os (flag_of worker)) (job worker) r
  pub stores : (flag : ℕ) (w : W) → log (runtime.store flag w) ≡ flag ∷ log w
  pub flags : (w : W) → log (runtime.new_flag w).1 ≡ log w
  pub starts :
      (flag : ℕ) (c : Command Ready) (w : W) → log (runtime.spawn_blocking flag c w).1 ≡ log w
  pub polls : (worker : JoinHandle) (w : W) → log (runtime.poll_join worker w).1 ≡ log w
  pub detaches : (worker : JoinHandle) (w : W) → log (runtime.detach worker w) ≡ log w

pending_same :
    {JoinHandle : Type 0} {f g : SpawnFuture JoinHandle}
    → ◌≡◌ {A = Polled JoinHandle} (pending f) (pending g)
    → f ≡ g
pending_same h = cc

module _ {W JoinHandle : Type 0} (runtime : Runtime W JoinHandle) where
  -- The futures that `spawn` leads to, by polls in any worlds.
  pub data Pending (c : Command Ready) : SpawnFuture JoinHandle → Type 0 where
    fresh : Pending c (spawn c)
    polled :
        {f : SpawnFuture JoinHandle}
        → Pending c f
        → (w : W) (f' : SpawnFuture JoinHandle) → (poll runtime f w).0 ≡ pending f'
        → Pending c f'

  -- The worker that a poll asks, and the world in which it does: the first poll starts it, with a
  -- flag that it makes.
  abbrev pub asked : SpawnFuture JoinHandle → W → JoinHandle × W
  asked (unstarted c) w = let flag = runtime.new_flag w in runtime.spawn_blocking flag.0 c flag.1
  asked (awaiting worker guard) w = (worker, w)

  -- The future awaits this worker.
  abbrev pub Awaits : JoinHandle → SpawnFuture JoinHandle → Type 0
  Awaits worker (unstarted c) = ⊥
  Awaits worker (awaiting other guard) = other ≡ worker

  -- What a poll that joins this worker with this answer says, and adds to the log of flags: still
  -- pending on the worker, and nothing; or what the worker returned, a run on the command with its
  -- flag, and nothing; or the failure of the join, and the flag of the worker.
  abbrev pub Answers :
      (ℕ → Os W)
      → (JoinHandle → ℕ)
      → Command Ready
      → JoinHandle
      → Option (Result (Result Output Error) String)
      → Polled JoinHandle
      → List ℕ
      → List ℕ
      → Type 0
  Answers os flag_of c worker joined (pending f) before after =
      (joined ≡ none) × Awaits worker f × (after ≡ before)
  Answers os flag_of c worker joined (ready r) before after =
      ((joined ≡ some (ok r)) × Executed (os (flag_of worker)) c r × (after ≡ before))
      ⊎ ((source : String) × (joined ≡ some (err source))
          × (r ≡ err (join_failure source))
          × (after ≡ flag_of worker ∷ before))

  -- What a drop adds: nothing before the first poll, and the flag of the worker after it.
  abbrev pub Dropped : (JoinHandle → ℕ) → SpawnFuture JoinHandle → List ℕ → List ℕ → Type 0
  Dropped flag_of (unstarted c) before after = after ≡ before
  Dropped flag_of (awaiting worker guard) before after = after ≡ flag_of worker ∷ before

  module _ (os : ℕ → Os W) (job : JoinHandle → Command Ready) (flag_of : JoinHandle → ℕ)
      (log : W → List ℕ) (j : Joins os runtime job flag_of log) where
    -- The future of this command: its guard is armed, with the flag of its worker.
    abbrev Armed : Command Ready → SpawnFuture JoinHandle → Type 0
    Armed c (unstarted c') = c' ≡ c
    Armed c (awaiting worker guard) =
        (job worker ≡ c) × (guard.armed ≡ true) × (guard.cancellation ≡ flag_of worker)

    sets :
        (guard : CancelOnDrop) (flag : ℕ) (w : W) {before : List ℕ}
        → guard.cancellation ≡ flag
        → log w ≡ before
        → log (runtime.store guard.cancellation w) ≡ flag ∷ before
    sets guard flag w e l =
        j.stores guard.cancellation w ∙ ap (λ n. n ∷ log w) e ∙ ap (λ x. flag ∷ x) l

    poll_awaiting-Armed :
        (c : Command Ready) (worker : JoinHandle) (guard : CancelOnDrop) (w : W)
        → Armed c (awaiting worker guard)
        → ((f : SpawnFuture JoinHandle)
            → (poll_awaiting runtime worker guard w).0 ≡ pending f
            → Armed c f)
          × Answers os flag_of c worker
              (runtime.poll_join worker w).0
              (poll_awaiting runtime worker guard w).0
              (log w)
              (log (poll_awaiting runtime worker guard w).1)
    unfolding poll_awaiting drop_guard
    poll_awaiting-Armed c worker guard w (own, armed, shared) =
        let joined = runtime.poll_join worker w in
        let quiet = j.polls worker w in
        elim (Option-cases joined.0) [
          | inl e ↦
              rw (e, poll_awaiting)
                (
                  (λ f k. subst (Armed c) (pending_same k) (own, armed, shared)),
                  (refl, refl, quiet),
                )
          | inr (outcome, e) ↦ elim (Result-cases outcome) [
            | inr (source, k) ↦
                rw (e, poll_awaiting)
                  (rw k (
                    rw armed (
                      (λ f x. absurd (cc)),
                      inr (source, refl, refl, sets guard (flag_of worker) joined.1 shared quiet),
                    )))
            | inl (r, k) ↦
                let ran =
                  subst (λ d. Executed (os (flag_of worker)) d r) own
                    (j.joins worker w r (e ∙ ap (λ x. some x) k)) in
                rw (e, poll_awaiting) (rw k ((λ f x. absurd (cc)), inl (refl, ran, quiet)))
          ]
        ]

    poll-Armed :
        (c : Command Ready) (f : SpawnFuture JoinHandle) (w : W)
        → Armed c f
        → ((f' : SpawnFuture JoinHandle) → (poll runtime f w).0 ≡ pending f' → Armed c f')
          × Answers os flag_of c
              (asked f w).0
              (runtime.poll_join (asked f w).0 (asked f w).1).0
              (poll runtime f w).0
              (log w)
              (log (poll runtime f w).1)
    unfolding poll
    poll-Armed c (awaiting worker guard) w h = poll_awaiting-Armed c worker guard w h
    poll-Armed c (unstarted c') w h =
        let flag = runtime.new_flag w in
        let worker = runtime.spawn_blocking flag.0 c' flag.1 in
        let guard : CancelOnDrop = record { cancellation = flag.0; armed = true } in
        let k =
          poll_awaiting-Armed c worker.0 guard worker.1
            (j.spawns flag.0 c' flag.1 ∙ h, refl, sym (j.shares flag.0 c' flag.1)) in
        (
          k.0,
          subst
              (λ l.
                Answers os flag_of c worker.0 (runtime.poll_join worker.0 worker.1).0
                  (poll_awaiting runtime worker.0 guard worker.1).0 l
                  (log (poll_awaiting runtime worker.0 guard worker.1).1))
              (j.starts flag.0 c' flag.1 ∙ j.flags w) k.1,
        )

    Pending-Armed : (c : Command Ready) {f : SpawnFuture JoinHandle} → Pending c f → Armed c f
    unfolding spawn
    Pending-Armed c fresh = refl
    Pending-Armed c (polled {f} p w f' e) = (poll-Armed c f w (Pending-Armed c p)).0 f' e

    drop_future-Armed :
        (c : Command Ready) (f : SpawnFuture JoinHandle) (w : W)
        → Armed c f
        → Dropped flag_of f (log w) (log (drop_future runtime f w))
    unfolding drop_future drop_guard
    drop_future-Armed c (unstarted c') w h = refl
    drop_future-Armed c (awaiting worker guard) w (own, armed, shared) =
        rw armed
          (sets guard (flag_of worker) (runtime.detach worker w) shared (j.detaches worker w))

    -- If the runtime keeps with a task the command and the flag that it was spawned with, and joins
    -- what was spawned, then for every future that `spawn` leads to, with its worker, which the first
    -- poll starts with a flag that it makes: a poll is pending, on that worker, exactly if the join
    -- is, and then it sets no flag; if the join gives what the worker returned, the poll gives that,
    -- the result of a run of `execute` on the command with the flag of the worker, and sets no flag;
    -- if the join fails, the poll gives the error of that failure, with unknown evidence, and sets
    -- the flag of the worker; and a drop sets the flag of the worker, and no flag if the future was
    -- never polled.
    pub spawn-Guarded :
        (c : Command Ready) (f : SpawnFuture JoinHandle) (w : W)
        → Pending c f
        → Answers os flag_of c
            (asked f w).0
            (runtime.poll_join (asked f w).0 (asked f w).1).0
            (poll runtime f w).0
            (log w)
            (log (poll runtime f w).1)
          × Dropped flag_of f (log w) (log (drop_future runtime f w))
    spawn-Guarded c f w p =
        let h = Pending-Armed c p in ((poll-Armed c f w h).1, drop_future-Armed c f w h)
