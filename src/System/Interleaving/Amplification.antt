-- ===== src/System/Interleaving/Amplification.antt =====
-- How much the messages that are handled can make the program send, in any interleaving.
use alarms_actions_synchroni.Prelude.{
  ℕ, zero, suc, ◌+◌, ◌≤◌, ◌<◌, ◌≡◌, ◌⊎◌, refl, arith, ite, ℕ_discrete, length, Bool, true, false,
  if◌then◌else◌, inl, inr, none,
}
use alarms_actions_synchroni.World.{World, Env}
use alarms_actions_synchroni.Tasks.Bounds.{Within}
use alarms_actions_synchroni.Controls.{SyncImpl}
use alarms_actions_synchroni.System.Interleaving.{
  Job, System, Thread, Move, Moves, takes, advances, aborts, here, update, idle, at_rest, job_task,
  advance,
}
use alarms_actions_synchroni.System.Interleaving.Returning.{
  accesses, requests, postings, Within-job_task,
}
use alarms_actions_synchroni.System.Interleaving.Totals.{
  total, total-update, total-update_beyond, step-Spent,
}

add_zero : (k : ℕ) → k + 0 ≡ k
add_zero k = omega arith

total_zero : (n : ℕ) → total n (λ i. 0) ≡ 0
total_zero zero = refl
total_zero (suc n) = omega (arith, total_zero n)

below_or_not : (i n : ℕ) → (i < n) ⊎ (n ≤ i)
below_or_not i n = ground arith

module _ {V D : Type 0} (env : Env V D) (sync : SyncImpl) (may_take : ℕ → Job → Type 0) where
  -- The most that a job sends, summed up over the jobs that are taken.
  abbrev granted_by_move : (Job → ℕ) → {s s' : System V} → Move env sync may_take s s' → ℕ
  granted_by_move cost (takes i job allowed waits done) = cost job
  granted_by_move cost _ = 0

  abbrev pub granted : (Job → ℕ) → {s s' : System V} → Moves env sync may_take s s' → ℕ
  granted cost here = 0
  granted cost (Moves.then run move) = granted cost run + granted_by_move cost move

  -- A thread within a budget.
  abbrev Affords : ℕ → ℕ → Thread V → Type 0
  Affords r p thread = (a : ℕ) × Within (λ u. Unit {0}) a r p thread.task

  -- What is sent and what the first `n` threads may still send is covered; the others wait.
  record Ledger (n : ℕ) (w : World V) (s : System V) (r_granted p_granted : ℕ) : Type 0 where
    r : ℕ → ℕ
    p : ℕ → ℕ
    affords : (i : ℕ) → Affords (r i) (p i) (s.threads i)
    outside : (i : ℕ) → n ≤ i → (r i ≡ 0) × (p i ≡ 0)
    sent : length s.world.sent + total n r ≤ length w.sent + r_granted
    published : length s.world.published + total n p ≤ length w.published + p_granted

  Affords-update :
      (r p : ℕ → ℕ) (threads : ℕ → Thread V) (i r' p' : ℕ) (thread : Thread V)
      → ((j : ℕ) → Affords (r j) (p j) (threads j))
      → Affords r' p' thread
      → (j : ℕ) → Affords (update r i r' j) (update p i p' j) (update threads i thread j)
  Affords-update r p threads i r' p' thread all one j = of_test (ℕ_discrete i j)
    where
      of_test :
          (d : Dec (i ≡ j)) → Affords (ite d r' (r j)) (ite d p' (p j)) (ite d thread (threads j))
      of_test (yes same) = one
      of_test (no other) = all j

  outside-update :
      (n i v : ℕ) (f : ℕ → ℕ)
      → (n ≤ i → v ≡ 0)
      → ((j : ℕ) → n ≤ j → f j ≡ 0)
      → (j : ℕ) → n ≤ j
      → update f i v j ≡ 0
  outside-update n i v f zero_if rest j h = of_test (ℕ_discrete i j)
    where
      of_test : (d : Dec (i ≡ j)) → ite d v (f j) ≡ 0
      of_test (yes same) = zero_if (omega (arith, same, h))
      of_test (no other) = rest j h

  -- A thread's budget and what has been sent change by as much as the other.
  sent-update :
      (n i v old new limit : ℕ) (f : ℕ → ℕ)
      → (n ≤ i → f i ≡ 0)
      → (n ≤ i → v ≡ 0)
      → new + v ≡ old + f i
      → old + total n f ≤ limit
      → new + total n (update f i v) ≤ limit
  sent-update n i v old new limit f was is e h = elim (below_or_not i n) [
    | inl inside ↦ omega (arith, total-update n f i v inside, e, h)
    | inr beyond ↦ omega (arith, total-update_beyond n f i v beyond, was beyond, is beyond, e, h)
  ]

  module _ (n : ℕ) (bounded : (i : ℕ) (job : Job) → may_take i job → i < n) (w : World V) where
    takes-Ledger :
        (s : System V) (r_granted p_granted i : ℕ) (job : Job)
        → may_take i job
        → Ledger n w s r_granted p_granted
        → Ledger n w
            (record s {
              threads = update s.threads i (record { task = job_task env sync job; seen = none });
            })
            (r_granted + requests job)
            (p_granted + postings job)
    takes-Ledger s r_granted p_granted i job allowed l = record {
      r = update l.r i (requests job);
      p = update l.p i (postings job);
      affords =
          Affords-update l.r l.p s.threads i (requests job) (postings job) _ l.affords
            (accesses env sync job, Within-job_task env sync job);
      outside = λ j h. (
        outside-update n i (requests job) l.r
            (λ beyond. absurd (omega (arith, bounded i job allowed, beyond)))
            (λ k g. (l.outside k g).0) j h,
        outside-update n i (postings job) l.p
            (λ beyond. absurd (omega (arith, bounded i job allowed, beyond)))
            (λ k g. (l.outside k g).1) j h,
      );
      sent = omega (arith, l.sent, total-update n l.r i (requests job) (bounded i job allowed));
      published =
          omega (arith, l.published, total-update n l.p i (postings job) (bounded i job allowed));
    }

    advances-Ledger :
        (s : System V) (r_granted p_granted i : ℕ)
        → Ledger n w s r_granted p_granted
        → Ledger n w
            (record {
              world = (advance env sync (s.threads i) s.world).1;
              threads = update s.threads i (advance env sync (s.threads i) s.world).0;
            })
            r_granted
            p_granted
    unfolding advance
    advances-Ledger s r_granted p_granted i l =
        let (a, within) = l.affords i in
        let spent =
          step-Spent env (λ u. Unit {0}) a (l.r i) (l.p i) (s.threads i).task s.world within in
        record {
          r = update l.r i spent.requests_left;
          p = update l.p i spent.postings_left;
          affords =
              Affords-update l.r l.p s.threads i _ _ _ l.affords
                (spent.accesses_left, spent.within);
          outside = λ j h. (
            outside-update n i spent.requests_left l.r
                (λ beyond. omega (arith, spent.requests_fewer, (l.outside i beyond).0))
                (λ k g. (l.outside k g).0) j h,
            outside-update n i spent.postings_left l.p
                (λ beyond. omega (arith, spent.postings_fewer, (l.outside i beyond).1))
                (λ k g. (l.outside k g).1) j h,
          );
          sent =
              sent-update n i spent.requests_left (length s.world.sent) _ _ l.r
                (λ beyond. (l.outside i beyond).0)
                (λ beyond. omega (arith, spent.requests_fewer, (l.outside i beyond).0))
                spent.requested l.sent;
          published =
              sent-update n i spent.postings_left (length s.world.published) _ _ l.p
                (λ beyond. (l.outside i beyond).1)
                (λ beyond. omega (arith, spent.postings_fewer, (l.outside i beyond).1)) spent.posted
                l.published;
        }

    Move-Ledger :
        (s : System V) {s' : System V} (r_granted p_granted : ℕ)
        (move : Move env sync may_take s s')
        → Ledger n w s r_granted p_granted
        → Ledger n w s'
            (r_granted + granted_by_move requests move)
            (p_granted + granted_by_move postings move)
    Move-Ledger s r_granted p_granted (takes i job allowed waits done) l =
        rw (← done) (takes-Ledger s r_granted p_granted i job allowed l)
    Move-Ledger s r_granted p_granted (advances i done) l =
        rw (add_zero r_granted, add_zero p_granted, ← done)
          (advances-Ledger s r_granted p_granted i l)
    Move-Ledger s r_granted p_granted (aborts keeps done) l =
        rw (add_zero r_granted, add_zero p_granted, ← done)
          (record {
            r = l.r;
            p = l.p;
            affords = λ i. kept i (keeps i);
            outside = l.outside;
            sent = l.sent;
            published = l.published;
          })
      where
        kept : (i : ℕ) (b : Bool) → Affords (l.r i) (l.p i) (if b then s.threads i else idle)
        kept i true = l.affords i
        kept i false = (0, tt)

    Moves-Ledger :
        {s : System V} (run : Moves env sync may_take (at_rest w) s)
        → Ledger n w s (granted requests run) (granted postings run)
    Moves-Ledger here = record {
      r = λ i. 0;
      p = λ i. 0;
      affords = λ i. (0, tt);
      outside = λ i h. (refl, refl);
      sent = omega (arith, total_zero n);
      published = omega (arith, total_zero n);
    }
    Moves-Ledger (Moves.then {s' = t} run move) =
        Move-Ledger t (granted requests run) (granted postings run) move (Moves-Ledger run)

    -- If only finitely many threads take jobs, then in every system that an interleaving reaches
    -- from one where every thread waits, there have been at most two requests to the alarms service
    -- for each message of a topic that was taken, and none for any other job, and at most one
    -- publication for each message from Controls, and none for any other job.
    pub sent-Moves :
        {s : System V} (run : Moves env sync may_take (at_rest w) s)
        → (length s.world.sent ≤ length w.sent + granted requests run)
          × (length s.world.published ≤ length w.published + granted postings run)
    sent-Moves run = let l = Moves-Ledger run in (omega (arith, l.sent), omega (arith, l.published))
