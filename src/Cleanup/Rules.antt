-- ===== src/Cleanup/Rules.antt =====
-- About actions: what holds after them, one rule for each way to build an action. `Holds m P Q R`
-- says that `m`, begun where P holds, ends where Q holds if it returns, and where R does if it raises
-- or the process is killed.
use sm_artmatch.Prelude.{
  Bool, true, false, ◌≡◌, refl, if◌then◌else◌, List, [], ◌∷◌, Result, ok, err,
}
use sm_artmatch.Cleanup.{Disk, Event, proceed, fail, fail_after, Error}
use sm_artmatch.Cleanup.Io.{
  Io, pure, raise, settle, call, handle, catch, continue, ◌>>=◌, finally, change, look, nothing,
}

module _ {A : Type 0} where
  abbrev pub After : (A → Disk → Type 0) → (Disk → Type 0) → Result Error A → Disk → Type 0
  After Q R (ok a) d = Q a d
  After Q R (err e) d = R d

  pub record Holds (m : Io A) (P : Disk → Type 0) (Q : A → Disk → Type 0) (R : Disk → Type 0)
      : Type 0 where
    pub at : (d : Disk) (es : List Event) → P d → After Q R (m d es).result (m d es).disk

  -- What a call that is done gives.
  abbrev pub Gives : (A → Disk → Type 0) → (Disk → Type 0) → Result Error (A × Disk) → Disk → Type 0
  Gives Q R (ok (a, d')) d = Q a d'
  Gives Q R (err e) d = R d

  module _ (Q : A → Disk → Type 0) (R : Disk → Type 0) where
    settle-After :
        (r : Result Error (A × Disk)) (d : Disk) (es : List Event)
        → Gives Q R r d
        → After Q R (settle r d es).result (settle r d es).disk
    settle-After (ok (a, d')) d es h = h
    settle-After (err e) d es h = h

    call-After :
        (f : Disk → Result Error (A × Disk)) (d : Disk) (es : List Event)
        → R d
        → Gives Q R (f d) d
        → After Q R (call f d es).result (call f d es).disk
    unfolding call
    call-After f d [] r h = r
    call-After f d (proceed ∷ es) r h = settle-After (f d) d es h
    call-After f d (fail ∷ es) r h = r
    call-After f d (fail_after ∷ es) r h = r

    handle-After :
        (R₁ : Disk → Type 0) (o : Result Error A) (handler : Error → Io A) (d : Disk)
        (es : List Event)
        → ((e : Error) → Holds (handler e) R₁ Q R)
        → After Q R₁ o d
        → After Q R (handle o handler d es).result (handle o handler d es).disk
    handle-After R₁ (ok a) handler d es k h = h
    handle-After R₁ (err e) handler d es k h = (k e).at d es h

    weaken-After :
        (Q₁ : A → Disk → Type 0) (R₁ : Disk → Type 0) (r : Result Error A) (d : Disk)
        → ((a : A) (d : Disk) → Q₁ a d → Q a d)
        → ((d : Disk) → R₁ d → R d)
        → After Q₁ R₁ r d
        → After Q R r d
    weaken-After Q₁ R₁ (ok a) d q r h = q a d h
    weaken-After Q₁ R₁ (err e) d q r h = r d h

  module _ {P : Disk → Type 0} {Q : A → Disk → Type 0} {R : Disk → Type 0} where
    pub Holds-pure : (a : A) → ((d : Disk) → P d → Q a d) → Holds (pure a) P Q R
    unfolding pure
    Holds-pure a h = record { at = λ d es p. h d p }

    pub Holds-raise : (e : Error) → ((d : Disk) → P d → R d) → Holds (raise e) P Q R
    unfolding raise
    Holds-raise e h = record { at = λ d es p. h d p }

    pub Holds-call :
        (f : Disk → Result Error (A × Disk))
        → ((d : Disk) → P d → R d)
        → ((d : Disk) → P d → Gives Q R (f d) d)
        → Holds (call f) P Q R
    Holds-call f r h = record { at = λ d es p. call-After Q R f d es (r d p) (h d p) }

    pub Holds-catch :
        {R₁ : Disk → Type 0}
        → (m : Io A) (handler : Error → Io A) → Holds m P Q R₁
        → ((e : Error) → Holds (handler e) R₁ Q R)
        → Holds (catch m handler) P Q R
    unfolding catch
    Holds-catch {R₁} m handler h k = record {
      at = λ d es p.
          let o = m d es in handle-After Q R R₁ o.result handler o.disk o.events k (h.at d es p);
    }

    pub Holds-if :
        (b : Bool) (m n : Io A)
        → (b ≡ true → Holds m P Q R)
        → (b ≡ false → Holds n P Q R)
        → Holds (if b then m else n) P Q R
    Holds-if true m n h k = h refl
    Holds-if false m n h k = k refl

    pub Holds-weaken :
        {P₁ : Disk → Type 0} {Q₁ : A → Disk → Type 0} {R₁ : Disk → Type 0}
        → (m : Io A) → ((d : Disk) → P d → P₁ d)
        → ((a : A) (d : Disk) → Q₁ a d → Q a d)
        → ((d : Disk) → R₁ d → R d)
        → Holds m P₁ Q₁ R₁
        → Holds m P Q R
    Holds-weaken {P₁} {Q₁} {R₁} m p q r h = record {
      at = λ d es x. weaken-After Q R Q₁ R₁ (m d es).result (m d es).disk q r (h.at d es (p d x));
    }

module _ {A B : Type 0} (Q : B → Disk → Type 0) (R : Disk → Type 0) where
  continue-After :
      (Q₁ : A → Disk → Type 0) (r : Result Error A) (next : A → Io B) (d : Disk) (es : List Event)
      → ((a : A) → Holds (next a) (Q₁ a) Q R)
      → After Q₁ R r d
      → After Q R (continue r next d es).result (continue r next d es).disk
  continue-After Q₁ (ok a) next d es k h = (k a).at d es h
  continue-After Q₁ (err e) next d es k h = h

module _ {A B : Type 0} {P : Disk → Type 0} {Q : B → Disk → Type 0} {R : Disk → Type 0} where
  pub Holds-bind :
      {Q₁ : A → Disk → Type 0}
      → (m : Io A) (next : A → Io B) → Holds m P Q₁ R
      → ((a : A) → Holds (next a) (Q₁ a) Q R)
      → Holds (m >>= next) P Q R
  unfolding ◌>>=◌
  Holds-bind {Q₁} m next h k = record {
    at = λ d es p.
        let o = m d es in continue-After Q R Q₁ o.result next o.disk o.events k (h.at d es p);
  }

module _ {P R : Disk → Type 0} (weak : (d : Disk) → P d → R d) where
  pub Holds-nothing : Holds nothing P (λ _ d. P d) R
  unfolding nothing
  Holds-nothing = Holds-call _ weak (λ d p. p)

  pub Holds-change :
      {Q : Disk → Type 0}
      → (f : Disk → Disk) → ((d : Disk) → P d → Q (f d))
      → Holds (change f) P (λ _ d. Q d) R
  unfolding change
  Holds-change f h = Holds-call _ weak h

  pub Holds-look : {A : Type 0} (f : Disk → A) → Holds (look f) P (λ a d. P d × (f d ≡ a)) R
  unfolding look
  Holds-look f = Holds-call _ weak (λ d p. (p, refl))

  -- A call without effect first.
  pub Holds-after :
      {B : Type 0} {Q : B → Disk → Type 0}
      → (m : Io B) → Holds m P Q R
      → Holds (nothing >>= λ _. m) P Q R
  Holds-after m h = Holds-bind nothing (λ _. m) Holds-nothing (λ _. h)

-- Where the same holds throughout.
abbrev pub Keeps : {A : Type 0} → (Disk → Type 0) → Io A → Type 0
Keeps P m = Holds m P (λ _ d. P d) P

pub Holds-finally :
    {A B : Type 0} {P R : Disk → Type 0} {Q : A → Disk → Type 0} (m : Io A) (last : Io B)
    → Holds m P Q R
    → ((a : A) → Holds last (Q a) (λ _ d. Q a d) R)
    → Keeps R last
    → Holds (finally m last) P Q R
unfolding finally
Holds-finally m last h k r =
    Holds-bind _ _ (Holds-catch m _ h (λ e. Holds-bind last _ r (λ _. Holds-raise e (λ d p. p))))
      (λ a. Holds-bind last _ (k a) (λ _. Holds-pure a (λ d p. p)))

-- What the state before says of the action's arguments.
pub Holds-given :
    {A F : Type 0} {P R : Disk → Type 0} {Q : A → Disk → Type 0} (m : Io A)
    → ((d : Disk) → P d → F)
    → (F → Holds m P Q R)
    → Holds m P Q R
Holds-given m f h = record { at = λ d es p. (h (f d p)).at d es p }
