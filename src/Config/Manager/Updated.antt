-- ===== src/Config/Manager/Updated.antt =====
-- What `Update` leaves in force.
use rfguard.Common.Tests.{◌≡◌, refl, Bool, true, false, some, arith}
use rfguard.Common.Result.{Outcome, ok, err}
use rfguard.Common.Text.{Text}
use rfguard.Common.Float.{Float}
use rfguard.Config.{Config}
use rfguard.Config.Load.{Codec, SaveError, saved_text}
use rfguard.Config.Manager.{Disk, Manager, Write, get, update, update_with, save_with}

-- An update that succeeds puts the configuration in force, and one that fails leaves the manager alone.
abbrev pub IsUpdated :
    {F : Type 0} → Manager F → Config F → Outcome SaveError Bool × Manager F × Disk → Type 0
IsUpdated m next (ok b, n, disk) = get n ≡ next
IsUpdated m next (err e, n, disk) = n ≡ m

pub IsUpdated-get :
    {F : Type 0} (m : Manager F) (next : Config F) (u : Outcome SaveError Bool × Manager F × Disk)
    → IsUpdated m next u
    → u.0 ≡ ok true
    → get u.1 ≡ next
IsUpdated-get m next (ok b, n, disk) k h = k
IsUpdated-get m next (err e, n, disk) k h = ground (arith, h)

module _ {F : Type 0} ⦃d : Float F⦄ (codec : Codec F) (write : Write) (m : Manager F)
    (next : Config F) where
  update_with-IsUpdated : (w : Bool × Disk) → IsUpdated m next (update_with codec m next w)
  update_with-IsUpdated (true, disk) = refl
  update_with-IsUpdated (false, disk) = refl

  save_with-IsUpdated :
      (disk : Disk) (text : Outcome SaveError Text)
      → IsUpdated m next (save_with codec write m next disk text)
  save_with-IsUpdated disk (ok text) = update_with-IsUpdated (write text disk)
  save_with-IsUpdated disk (err e) = refl

  pub update-IsUpdated : (disk : Disk) → IsUpdated m next (update codec write m (some next) disk)
  unfolding update
  update-IsUpdated disk = save_with-IsUpdated disk (saved_text codec m.path (some next))
