-- ===== src/Functions/Copy/Delivery/Hands.antt =====
-- Each step of `DoStuff` (src/Functions.cpp) keeps the fate of one file.
use sync_files.Base.{
  ℕ, ◌+◌, ◌≡◌, ◌≢◌, refl, Option, none, some, [], ◌∷◌, ◌++◌, inl, inr, arith, Str, str_dec, count,
}
use sync_files.Files.{Files}
use sync_files.Functions.State.{Functions}
use sync_files.Functions.Work.{WorkPc, copying, pop_delete, work_step, transfer, after_transfer}
use sync_files.Functions.Work.Transfer.{Holds}
use sync_files.Functions.Copy.Delivery.Defs.{Parcel, Harmless, Keepers, Fate, Steady}
use sync_files.Functions.Copy.Delivery.Transfers.{transfer-Settled, transfer-Fate}
use sync_files.Functions.Copy.Delivery.Working.{held, work_step-held, Fate-same}

module _ (parcel : Parcel) where
  open parcel use {inp, out, name, bytes}

  -- With the named file in a worker's hands, its source stands.
  pub in_hand :
      (a b n : ℕ) (fn : Functions) (fs : Files)
      → Fate parcel (a + b + count name (name ∷ []) + n) fn fs
      → (a + b + n ≡ 0) × Holds fs (inp ++ name) bytes
  in_hand a b n fn fs (inl (m, h)) = (ground arith, h)
  in_hand a b n fn fs (inr (m, h)) = absurd (ground arith)

  pub after_transfer-held :
      (fn : Functions) (fs : Files) (g : Str) (o : Option Files) (pc : WorkPc)
      → held parcel (after_transfer fn fs g o).0 pc ≡ held parcel fn pc
  after_transfer-held fn fs g none pc = refl
  after_transfer-held fn fs g (some fs') pc = refl

  pub copying-Fate_other :
      (fn : Functions) (fs : Files) (g : Str) (n : ℕ)
      → Steady parcel fn
      → Harmless parcel g
      → g ≢ name
      → Fate parcel (held parcel fn (copying g) + n) fn fs
      → let (fn', fs') = after_transfer fn fs g (transfer fn fs g) in
        Fate parcel (held parcel fn' pop_delete + n) fn' fs'
  copying-Fate_other fn fs g n v k d f =
      let (fn', fs') = after_transfer fn fs g (transfer fn fs g) in
      let miss : count name (g ∷ []) ≡ 0 = ground arith in
      rw (after_transfer-held fn fs g (transfer fn fs g) pop_delete) (
        transfer-Fate parcel (held parcel fn pop_delete + n) fn fs g (transfer fn fs g) v.from_eq
          v.to_eq k d refl
          (Fate-same parcel _ (held parcel fn pop_delete + n) fn fn fs fs (omega (arith, miss)) refl
            refl f))

  pub copying-Fate_self :
      (fn : Functions) (fs : Files) (n : ℕ)
      → Steady parcel fn
      → Fate parcel (held parcel fn (copying name) + n) fn fs
      → let (fn', fs') = after_transfer fn fs name (transfer fn fs name) in
        Fate parcel (held parcel fn' pop_delete + n) fn' fs'
  copying-Fate_self fn fs n v f =
      let (z, h) = in_hand (count name fn.input_files_set) (count name fn.copy_queue) n fn fs f in
      inr (
        rw (after_transfer-held fn fs name (transfer fn fs name) pop_delete) (omega arith),
        transfer-Settled parcel fn fs (transfer fn fs name) v.from_eq v.to_eq h refl,
      )

  pub copying-Fate :
      (fn : Functions) (fs : Files) (g : Str) (n : ℕ)
      → Steady parcel fn
      → Harmless parcel g
      → Fate parcel (held parcel fn (copying g) + n) fn fs
      → let (fn', fs') = after_transfer fn fs g (transfer fn fs g) in
        Fate parcel (held parcel fn' pop_delete + n) fn' fs'
  copying-Fate fn fs g n v k f = elim (str_dec g name) [
    | yes e ↦ rw e (copying-Fate_self fn fs n v (rw e at f))
    | no d ↦ copying-Fate_other fn fs g n v k d f
  ]

  -- `n` is how often the named file is held parcel elsewhere.
  pub work_step-Fate :
      (pc : WorkPc) (fn : Functions) (fs : Files) (n : ℕ)
      → Steady parcel fn
      → Keepers parcel pc
      → Fate parcel (held parcel fn pc + n) fn fs
      → let (pc', fn', fs') = work_step pc fn fs in Fate parcel (held parcel fn' pc' + n) fn' fs'
  work_step-Fate (copying g) fn fs n v k f = unfold work_step in copying-Fate fn fs g n v k f
  work_step-Fate pc fn fs n v k f =
      let (a, b, c) = work_step-held parcel pc fn fs (λ c. c) v k in
      Fate-same parcel (held parcel fn pc + n) _ fn (work_step pc fn fs).1 fs _ (omega (arith, a)) b
        c f
