-- ===== src/Functions/Copy/Delivery/Transfers.antt =====
-- The copies of `DoStuff` (src/Functions.cpp), and the fate of one file.
use sync_files.Base.{ℕ, ◌≡◌, ◌≢◌, refl, ◌∙◌, true, Option, none, some, [], ◌∷◌, ◌++◌, inl, inr, Str}
use sync_files.Files.{Files, lookup}
use sync_files.Functions.State.{Functions, copy_fault}
use sync_files.Functions.Work.{transfer, after_transfer}
use sync_files.Functions.Work.Transfer.{
  reported, reported-append, reported-append_self, lookup-transfer_ne, Holds, transfer-Holds,
}
use sync_files.Functions.Copy.Delivery.Defs.{Parcel, Harmless, Settled, Fate}

module _ (parcel : Parcel) where
  open parcel use {inp, out, name, bytes}

  -- Where nothing changes at the two paths, the fate of the named file stays.
  pub Fate-frame :
      (n : ℕ) (fn fn' : Functions) (fs fs' : Files)
      → lookup fs' (inp ++ name) ≡ lookup fs (inp ++ name)
      → lookup fs' (out ++ name) ≡ lookup fs (out ++ name)
      → (reported name fn.errors ≡ true → reported name fn'.errors ≡ true)
      → Fate parcel n fn fs
      → Fate parcel n fn' fs'
  Fate-frame n fn fn' fs fs' p q r (inl (m, (t, h))) = inl (m, (t, p ∙ h))
  Fate-frame n fn fn' fs fs' p q r (inr (m, inl (t, h))) = inr (m, inl (t, q ∙ h))
  Fate-frame n fn fn' fs fs' p q r (inr (m, inr h)) = inr (m, inr (r h))

  -- A worker's transfer of the named file settles it.
  pub transfer-Settled :
      (fn : Functions) (fs : Files) (o : Option Files)
      → fn.input_prefix ≡ inp
      → fn.output_prefix ≡ out
      → Holds fs (inp ++ name) bytes
      → transfer fn fs name ≡ o
      → let (fn', fs') = after_transfer fn fs name o in Settled parcel fn' fs'
  transfer-Settled fn fs none a b h e = inr (reported-append_self name fn.errors)
  transfer-Settled fn fs (some fs') a b h e =
      inl (rw b at (transfer-Holds fn fs fs' name bytes (rw a h) e))

  -- A transfer of any other file leaves its fate alone.
  pub transfer-Fate :
      (n : ℕ) (fn : Functions) (fs : Files) (g : Str) (o : Option Files)
      → fn.input_prefix ≡ inp
      → fn.output_prefix ≡ out
      → Harmless parcel g
      → g ≢ name
      → transfer fn fs g ≡ o
      → Fate parcel n fn fs
      → let (fn', fs') = after_transfer fn fs g o in Fate parcel n fn' fs'
  transfer-Fate n fn fs g none a b h d e f =
      Fate-frame n fn (after_transfer fn fs g none).0 fs fs refl refl
        (reported-append name fn.errors (copy_fault g ∷ [])) f
  transfer-Fate n fn fs g (some fs') a b h d e f =
      Fate-frame n fn (after_transfer fn fs g (some fs')).0 fs fs'
        (lookup-transfer_ne fn fs fs' g (inp ++ name) e (rw a (h.other_source d)) (rw b h.target))
        (lookup-transfer_ne fn fs fs' g (out ++ name) e (rw a h.source) (rw b (h.other_target d)))
        (λ r. r) f
