-- ===== src/Memory/Frame.antt =====
-- The log, the segments and the checkpoints leave the records and the open flag alone, whatever
-- the disk does.
use cluster_db.Prelude.{ℕ, ◌+◌, ◌≡◌, refl, ◌∙◌, arith, Bool, true, false, Option, none, some}
use cluster_db.Prelude.{Result, ok, err, pure, gets, modify, proceed, ◌>>=◌, if◌then◌else◌}
use cluster_db.Prelude.{Action}
use cluster_db.Prelude.Bytes.{Bytes}
use cluster_db.Storage.Types.{Error}
use cluster_db.Os.Disk.{Os, Disk}
use cluster_db.Wal.Writer.{Writer}
use cluster_db.Wal.Codec.{WalRecord}
use cluster_db.Memory.Engine.{Config, Engine, M, on_disk}
use cluster_db.Memory.Files.{reset_wal}
use cluster_db.Memory.Lifecycle.{
  checkpoint_handle, create_checkpoint, maybe_checkpoint, rotate_if_needed, append_to, append_wal,
}

-- What a client of the engine can tell: its records, whether it is open, its configuration.
pub record SameData (a b : Engine) : Type 0 where
  pub store : a.store ≡ b.store
  pub is_open : a.is_open ≡ b.is_open
  pub cfg : a.cfg ≡ b.cfg

SameData-refl : (a : Engine) → SameData a a
SameData-refl a = record { store = refl; is_open = refl; cfg = refl }

SameData-trans : {a b c : Engine} → SameData a b → SameData b c → SameData a c
SameData-trans p q = record {
  store = p.store ∙ q.store;
  is_open = p.is_open ∙ q.is_open;
  cfg = p.cfg ∙ q.cfg;
}

-- The method changes nothing that a client can tell, whether it returns or fails.
pub record IsQuiet {A : Type 0} (m : M A) : Type 0 where
  pub at : (s : Engine) → SameData (m s).1 s

module _ {A : Type 0} where
  IsQuiet-pure : (a : A) → IsQuiet (pure {E = Error} {S = Engine} a)
  unfolding pure
  IsQuiet-pure a = record { at = SameData-refl }

  IsQuiet-gets : (f : Engine → A) → IsQuiet (gets {E = Error} f)
  unfolding gets
  IsQuiet-gets f = record { at = SameData-refl }

  IsQuiet-on_disk : (m : Action Error Disk A) → IsQuiet (on_disk m)
  unfolding on_disk
  IsQuiet-on_disk m = record { at = λ s. record { store = refl; is_open = refl; cfg = refl } }

  IsQuiet-if : (b : Bool) (m n : M A) → IsQuiet m → IsQuiet n → IsQuiet (if b then m else n)
  IsQuiet-if true m n p q = p
  IsQuiet-if false m n p q = q

IsQuiet-modify :
    (f : Engine → Engine) → ((s : Engine) → SameData (f s) s) → IsQuiet (modify {E = Error} f)
unfolding modify
IsQuiet-modify f h = record { at = h }

module _ {A B : Type 0} where
  SameData-proceed :
      (r : Result Error A) (f : A → M B) (s : Engine)
      → ((a : A) → IsQuiet (f a))
      → SameData (proceed r f s).1 s
  SameData-proceed (ok a) f s h = (h a).at s
  SameData-proceed (err e) f s h = SameData-refl s

  IsQuiet-bind : (m : M A) (f : A → M B) → IsQuiet m → ((a : A) → IsQuiet (f a)) → IsQuiet (m >>= f)
  unfolding ◌>>=◌
  IsQuiet-bind m f p q = record {
    at = λ s. SameData-trans (SameData-proceed (m s).0 f (m s).1 q) (p.at s);
  }

set_wal : (w : Option Writer) → IsQuiet (modify {E = Error} (λ s. record s { wal = w }))
set_wal w = IsQuiet-modify _ (λ s. record { store = refl; is_open = refl; cfg = refl })

set_checkpoint :
    (p : Option Bytes) → IsQuiet (modify {E = Error} (λ s. record s { checkpoint = p }))
set_checkpoint p = IsQuiet-modify _ (λ s. record { store = refl; is_open = refl; cfg = refl })

ruleset quiet_rules =
    (IsQuiet-pure, IsQuiet-gets, IsQuiet-on_disk, IsQuiet-if, IsQuiet-bind, set_wal, set_checkpoint)

module _ (os : Os) where
  pub reset_wal-IsQuiet : IsQuiet (reset_wal os)
  unfolding reset_wal on_disk ◌>>=◌
  reset_wal-IsQuiet = record { at = λ s. ground arith }

  checkpoint_handle-IsQuiet :
      (cfg : Config) (o : Option Bytes) → IsQuiet (checkpoint_handle os cfg o)
  unfolding checkpoint_handle
  checkpoint_handle-IsQuiet cfg (some p) = IsQuiet-pure p
  checkpoint_handle-IsQuiet cfg none = search quiet_rules

  count_checkpoint :
      IsQuiet (modify {E = Error} (λ s. record s { checkpoint_count = s.checkpoint_count + 1 }))
  count_checkpoint = IsQuiet-modify _ (λ s. record { store = refl; is_open = refl; cfg = refl })

  stamp_checkpoint :
      (ts : ℕ) → IsQuiet (modify {E = Error} (λ s. record s { last_checkpoint = ts }))
  stamp_checkpoint ts = IsQuiet-modify _ (λ s. record { store = refl; is_open = refl; cfg = refl })

  pub create_checkpoint-IsQuiet : IsQuiet (create_checkpoint os)
  unfolding create_checkpoint
  create_checkpoint-IsQuiet =
      search
        (
          quiet_rules, checkpoint_handle-IsQuiet, reset_wal-IsQuiet, count_checkpoint,
          stamp_checkpoint,
        )
        depth 9

  pub maybe_checkpoint-IsQuiet : (force : Bool) → IsQuiet (maybe_checkpoint os force)
  unfolding maybe_checkpoint
  maybe_checkpoint-IsQuiet force = search (quiet_rules, create_checkpoint-IsQuiet) depth 9

  pub rotate_if_needed-IsQuiet : IsQuiet (rotate_if_needed os)
  unfolding rotate_if_needed on_disk ◌>>=◌
  rotate_if_needed-IsQuiet = record { at = λ s. ground arith }

  append_to-IsQuiet :
      (sync_on_write : Bool) (r : WalRecord) (w : Option Writer)
      → IsQuiet (append_to os sync_on_write r w)
  unfolding append_to
  append_to-IsQuiet b r none = IsQuiet-pure tt
  append_to-IsQuiet b r (some w) = search quiet_rules

  pub append_wal-IsQuiet : (r : WalRecord) → IsQuiet (append_wal os r)
  unfolding append_wal
  append_wal-IsQuiet r = search (quiet_rules, rotate_if_needed-IsQuiet, append_to-IsQuiet)
