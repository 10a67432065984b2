-- ===== src/LocalBlock/Disk/Hoare.antt =====
-- Triples for the calls of the blocks directory. `Q` holds where the call is done, `R (some e)`
-- where it fails with `e`, and `R none` where the process is killed in it.
use scrap.Common.{◌≡◌, refl, Option, none, some, List, [], ◌∷◌, Bool, true, false, if◌then◌else◌}
use scrap.Common.Result.{Result, ok, err, either, if_some}
use scrap.LocalBlock.Marker.{Error, io}
use scrap.LocalBlock.Disk.{
  Dir, World, Fault, fine, fail, crash, Outcome, done, failed, crashed, Io, and_then, draw, pure,
  raise, handle, ◌>>=◌, lift, sys, modify, look,
}

abbrev pub Ends :
    {A : Type 0} → (A → Dir → Type 0) → (Option Error → Dir → Type 0) → Outcome A → Dir → Type 0
Ends Q R (done a) dir = Q a dir
Ends Q R (failed e) dir = R (some e) dir
Ends Q R crashed dir = R none dir

pub record Triple {A : Type 0} (P : Dir → Type 0) (m : Io A) (Q : A → Dir → Type 0)
    (R : Option Error → Dir → Type 0) : Type 0 where
  pub at : (w : World) → P w.dir → let (o, w') = m w in Ends Q R o w'.dir

module _ {A : Type 0} {P : Dir → Type 0} {Q : A → Dir → Type 0}
    {R : Option Error → Dir → Type 0} where
  pub Triple-pure : (a : A) → ((dir : Dir) → P dir → Q a dir) → Triple P (pure a) Q R
  Triple-pure a h = record { at = λ w p. h w.dir p }

  pub Triple-raise : (e : Error) → ((dir : Dir) → P dir → R (some e) dir) → Triple P (raise e) Q R
  Triple-raise e h = record { at = λ w p. h w.dir p }

  pub Triple-if :
      (b : Bool) (m n : Io A)
      → (b ≡ true → Triple P m Q R)
      → (b ≡ false → Triple P n Q R)
      → Triple P (if b then m else n) Q R
  Triple-if true m n hm hn = hm refl
  Triple-if false m n hm hn = hn refl

  pub Triple-if_some :
      {B : Type 0} (o : Option B) (early : B → Io A) (rest : Io A)
      → ((b : B) → o ≡ some b → Triple P (early b) Q R)
      → (o ≡ none → Triple P rest Q R)
      → Triple P (if_some o early rest) Q R
  Triple-if_some (some b) early rest he hr = he b refl
  Triple-if_some none early rest he hr = hr refl

  pub Triple-either :
      {E B : Type 0} (r : Result E B) (bad : E → Io A) (good : B → Io A)
      → ((e : E) → Triple P (bad e) Q R)
      → ((b : B) → r ≡ ok b → Triple P (good b) Q R)
      → Triple P (either r bad good) Q R
  Triple-either (ok b) bad good hb hg = hg b refl
  Triple-either (err e) bad good hb hg = hb e

module _ {A : Type 0} {P : Dir → Type 0} {R : Option Error → Dir → Type 0} where
  -- What is read is kept beside what holds of the directory.
  pub Triple-look : (f : Dir → A) → Triple P (look f) (λ a dir. P dir × (f dir ≡ a)) R
  Triple-look f = record { at = λ w p. (p, refl) }

  -- So is what a check of values says of them.
  pub Triple-lift :
      (r : Result Error A)
      → ((o : Option Error) (dir : Dir) → P dir → R o dir)
      → Triple P (lift r) (λ a dir. P dir × (r ≡ ok a)) R
  Triple-lift (ok a) h = record { at = λ w p. (p, refl) }
  Triple-lift (err e) h = record { at = λ w p. h (some e) w.dir p }

module _ {A : Type 0} {P : Dir → Type 0} {Q : A → Dir → Type 0}
    {R : Option Error → Dir → Type 0} where
  pub Triple-check :
      (r : Result Error A)
      → ((o : Option Error) (dir : Dir) → P dir → R o dir)
      → ((a : A) (dir : Dir) → P dir → r ≡ ok a → Q a dir)
      → Triple P (lift r) Q R
  Triple-check (ok a) h k = record { at = λ w p. k a w.dir p refl }
  Triple-check (err e) h k = record { at = λ w p. h (some e) w.dir p }

module _ {P : Dir → Type 0} {Q : Unit {0} → Dir → Type 0} {R : Option Error → Dir → Type 0} where
  pub Triple-modify :
      (f : Dir → Dir) → ((dir : Dir) → P dir → Q tt (f dir)) → Triple P (modify f) Q R
  Triple-modify f h = record { at = λ w p. h w.dir p }

module _ {P : Dir → Type 0} {R : Option Error → Dir → Type 0} where
  -- A call that changes no file fails with `io` or is the one in which the process is killed.
  pub Triple-sys :
      ((dir : Dir) → P dir → R (some io) dir)
      → ((dir : Dir) → P dir → R none dir)
      → Triple P sys (λ _. P) R
  unfolding sys
  Triple-sys h k = record { at = λ w p. drawn w.faults w p }
    where
      drawn :
          (fs : List Fault) (w : World)
          → P w.dir
          → let (o, w') = draw fs w in Ends (λ _. P) R o w'.dir
      drawn [] w p = p
      drawn (fine ∷ fs) w p = p
      drawn (fail ∷ fs) w p = h w.dir p
      drawn (crash ∷ fs) w p = k w.dir p

module _ {A B : Type 0} {P : Dir → Type 0} {Q : A → Dir → Type 0} {R : Option Error → Dir → Type 0}
    {Q' : B → Dir → Type 0} {R' : Option Error → Dir → Type 0} where
  pub Triple-handle :
      (m : Io A) (bad : Error → Io B) (good : A → Io B)
      → Triple P m Q R
      → ((dir : Dir) → R none dir → R' none dir)
      → ((e : Error) → Triple (R (some e)) (bad e) Q' R')
      → ((a : A) → Triple (Q a) (good a) Q' R')
      → Triple P (handle m bad good) Q' R'
  unfolding handle
  Triple-handle m bad good tm killed tbad tgood = record {
    at = λ w p. ends (m w).0 (m w).1 (tm.at w p);
  }
    where
      ends :
          (o : Outcome A) (w : World)
          → Ends Q R o w.dir
          → let (o', w') = and_then o bad good w in Ends Q' R' o' w'.dir
      ends (done a) w h = (tgood a).at w h
      ends (failed e) w h = (tbad e).at w h
      ends crashed w h = killed w.dir h

module _ {A B : Type 0} {P : Dir → Type 0} {Q : A → Dir → Type 0} {R : Option Error → Dir → Type 0}
    {Q' : B → Dir → Type 0} where
  pub Triple-bind :
      (m : Io A) (good : A → Io B)
      → Triple P m Q R
      → ((a : A) → Triple (Q a) (good a) Q' R)
      → Triple P (m >>= good) Q' R
  Triple-bind m good tm tgood =
      Triple-handle m raise good tm (λ dir h. h) (λ e. Triple-raise e (λ dir h. h)) tgood

module _ {A : Type 0} {P P' : Dir → Type 0} {Q : A → Dir → Type 0}
    {R : Option Error → Dir → Type 0} where
  pub Triple-pre : (m : Io A) → ((dir : Dir) → P' dir → P dir) → Triple P m Q R → Triple P' m Q R
  Triple-pre m h tm = record { at = λ w p. tm.at w (h w.dir p) }
