-- ===== src/System/Interleaving/Commuting.antt =====
-- Jobs about different devices, in either order.
use alarms_actions_synchroni.Prelude.{String, some, ◌≡◌, ◌≢◌, ◌⊎◌, inl, inr, refl, sym, ap, ◌∙◌}
use mathlib.Core.Option.{some-injective}
use alarms_actions_synchroni.World.{World, Env}
use alarms_actions_synchroni.Tasks.Isolated.{entry, Each}
use alarms_actions_synchroni.Controls.{SyncImpl}
use alarms_actions_synchroni.System.Interleaving.{Job, do_job}
use alarms_actions_synchroni.System.Interleaving.Devices.{
  devices, Settles-job_task, entry-do_job, entry-do_job_other,
}

module _ {V D : Type 0} (env : Env V D) (sync : SyncImpl) where
  -- No device is a device of both.
  abbrev pub AreApart : Job → Job → Type 0
  AreApart a b =
      (d : String) → Each (λ e. d ≢ e) (devices env sync a) ⊎ Each (λ e. d ≢ e) (devices env sync b)

  does : (job : Job) (w : World V) → (w' : World V) × (do_job env sync job w ≡ some w')
  does job w =
      let settles = Settles-job_task env sync job "" (entry "" w) in
      let (w', done, left) = entry-do_job env sync job "" (entry "" w) settles w refl in (w', done)

  -- What a job leaves of a device depends on the entry of the device only.
  entry-do_job_same :
      (job : Job) (d : String) (w v w' v' : World V)
      → entry d w ≡ entry d v
      → do_job env sync job w ≡ some w'
      → do_job env sync job v ≡ some v'
      → entry d w' ≡ entry d v'
  entry-do_job_same job d w v w' v' same on_w on_v =
      let settles = Settles-job_task env sync job d (entry d w) in
      let (x, at_x, left_x) = entry-do_job env sync job d (entry d w) settles w refl in
      let (y, at_y, left_y) = entry-do_job env sync job d (entry d w) settles v (sym same) in
      ap (entry d) (some-injective w' x (sym on_w ∙ at_x))
      ∙ left_x
      ∙ sym left_y
      ∙ ap (entry d) (some-injective y v' (sym at_y ∙ on_v))

  -- One of the jobs is not about the device.
  entry-order :
      (a b : Job) (d : String) (w wa wab wb wba : World V)
      → do_job env sync a w ≡ some wa
      → do_job env sync b wa ≡ some wab
      → do_job env sync b w ≡ some wb
      → do_job env sync a wb ≡ some wba
      → Each (λ e. d ≢ e) (devices env sync b)
      → entry d wab ≡ entry d wba
  entry-order a b d w wa wab wb wba first second first' second' other =
      entry-do_job_other env sync b d wa wab other second
      ∙ entry-do_job_same a d w wb wa wba (sym (entry-do_job_other env sync b d w wb other first'))
          first second'

  -- Two jobs about different devices, each the handling of a message or the hydration, are done one
  -- after the other, in either order: neither panics, and the caches then hold the same state and
  -- the same metadata of every device.
  pub do_job-commutes :
      (a b : Job) (w : World V)
      → AreApart a b
      → (wa : World V) × (wab : World V) × (wb : World V) × (wba : World V) × (do_job env sync a w
          ≡ some wa)
        × (do_job env sync b wa ≡ some wab)
        × (do_job env sync b w ≡ some wb)
        × (do_job env sync a wb ≡ some wba)
        × ((d : String) → entry d wab ≡ entry d wba)
  do_job-commutes a b w apart =
      let (wa, first) = does a w in
      let (wab, second) = does b wa in
      let (wb, first') = does b w in
      let (wba, second') = does a wb in
      (
        wa,
        wab,
        wb,
        wba,
        first,
        second,
        first',
        second',
        λ d. elim (apart d) [
          | inl not_a ↦ sym (entry-order b a d w wb wba wa wab first' second' first second not_a)
          | inr not_b ↦ entry-order a b d w wa wab wb wba first second first' second' not_b
        ],
      )
