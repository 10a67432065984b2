-- ===== src/LocalBlock/Disk.antt =====
-- The blocks directory as internal/localblock reads and writes it: the files of each Block, and
-- calls of the operating system of which each can fail, or find the process killed. A file is
-- published by a rename, so a marker file is absent, whole, or whole and unreadable; a temporary
-- file is never read and is not modelled. What a killed process leaves is the directory as it was
-- at that call: a rename or a removal that has returned is taken to be durable.
pub mod Hoare
use scrap.Common.{ℕ, ◌≡◌, arith, Bool, true, false, List, [], ◌∷◌, ◌==◌, if◌then◌else◌}
use scrap.Common.Result.{Result, ok, err}
use scrap.LocalBlock.Marker.{
  Error, not_exist, marker_invalid, io, EvictionMarker, RestoreMarker, RestoreScanRecord,
}

-- A marker file; `unreadable` is one whose text is no marker.
pub data File (A : Type 0) : Type 0 where
  absent : File A
  present : A → File A
  unreadable : File A

-- The `.blk` and `.idx` files of a Block and its sidecars.
pub record Files : Type 0 where
  pub blk : Bool
  pub idx : Bool
  pub eviction : File EvictionMarker
  pub restore : File RestoreMarker
  pub scanned : File RestoreScanRecord

abbrev pub Dir : Type 0
Dir = ℕ → Files

abbrev pub update : ℕ → (Files → Files) → Dir → Dir
update id f dir k = if k == id then f (dir k) else dir k

pub update_self : (id : ℕ) (f : Files → Files) (dir : Dir) → update id f dir id ≡ f (dir id)
update_self id f dir = ground arith

-- What happens to a call of the operating system: it is done, it fails, or the process is killed.
pub data Fault : Type 0 where
  fine : Fault
  fail : Fault
  crash : Fault

-- The directory, and the faults to come; past their end every call is done.
pub record World : Type 0 where
  pub dir : Dir
  pub faults : List Fault

pub data Outcome (A : Type 0) : Type 0 where
  done : A → Outcome A
  failed : Error → Outcome A
  crashed : Outcome A

abbrev pub Io : Type 0 → Type 0
Io A = World → Outcome A × World

abbrev pub pure : {A : Type 0} → A → Io A
pure a w = (done a, w)

abbrev pub raise : {A : Type 0} → Error → Io A
raise e w = (failed e, w)

module _ {A B : Type 0} where
  abbrev pub and_then : Outcome A → (Error → Io B) → (A → Io B) → Io B
  and_then (done a) bad good w = good a w
  and_then (failed e) bad good w = bad e w
  and_then crashed bad good w = (crashed, w)

  -- `a, err := m; if err != nil { bad }; good`
  unfoldable pub handle : Io A → (Error → Io B) → (A → Io B) → Io B
  handle m bad good w = let (o, w') = m w in and_then o bad good w'

  infixl 5 ◌>>=◌ ◌>>◌
  abbrev pub ◌>>=◌ : Io A → (A → Io B) → Io B
  m >>= f = handle m raise f

  abbrev pub ◌>>◌ : Io A → Io B → Io B
  m >> k = m >>= λ _. k

abbrev pub lift : {A : Type 0} → Result Error A → Io A
lift (ok a) = pure a
lift (err e) = raise e

unfoldable pub draw : List Fault → Io (Unit {0})
draw [] w = (done tt, w)
draw (fine ∷ fs) w = (done tt, record w { faults = fs })
draw (fail ∷ fs) w = (failed io, record w { faults = fs })
draw (crash ∷ fs) w = (crashed, record w { faults = fs })

-- A call of the operating system that changes no file of a Block.
unfoldable pub sys : Io (Unit {0})
unfolding draw
sys w = draw w.faults w

abbrev pub modify : (Dir → Dir) → Io (Unit {0})
modify f w = (done tt, record w { dir = f w.dir })

abbrev pub look : {A : Type 0} → (Dir → A) → Io A
look f w = (done (f w.dir), w)
