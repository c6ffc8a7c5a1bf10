-- ===== src/Server/JobQueue/World/Frame.antt =====
-- The phases and the job channel under one owner's step.
use localdb.Prelude.{
  ◌≡◌, refl, sym, inl, inr, Bool, true, false, List, [], ◌∷◌, ◌++◌, Text, text_eq, text_eq_iff,
  text_eq_refl, if◌then◌else◌, Bool-cases, arith,
}
use mathlib.Core.Path.{subst}
use localdb.Server.JobQueue.State.{JobQueue, QueuedJob}
use localdb.Server.JobQueue.World.Invariant.{in_channel, IsWaiting}
use localdb.Server.JobQueue.World.{Phase, queued, World, move}

abbrev pub is_queued : Phase → Bool
is_queued (queued x) = true
is_queued p = false

in_channel-is_queued :
    (i : Text) (phase : Text → Phase) (xs : List QueuedJob)
    → IsWaiting phase xs
    → in_channel i xs ≡ true
    → is_queued (phase i) ≡ true
in_channel-is_queued i phase [] w h = cc
in_channel-is_queued i phase (x ∷ xs) (q, fresh, w) h =
    ground (arith, text_eq_iff x.id i, in_channel-is_queued i phase xs w)

-- The phases as a record, since a rule that changes one of them is stated of all.
abbrev pub set_phase : Text → Phase → (Text → Phase) → Text → Phase
set_phase i p phase j = if text_eq i j then p else phase j

IsWaiting-absent :
    (i : Text) (p : Phase) (phase : Text → Phase) (xs : List QueuedJob)
    → in_channel i xs ≡ false
    → IsWaiting phase xs
    → IsWaiting (set_phase i p phase) xs
IsWaiting-absent i p phase [] h w = tt
IsWaiting-absent i p phase (x ∷ xs) h (q, fresh, w) =
    ground (arith, text_eq_iff x.id i, text_eq_iff i x.id, IsWaiting-absent i p phase xs)

pub IsWaiting-set :
    (i : Text) (p : Phase) (phase : Text → Phase) (xs : List QueuedJob)
    → is_queued (phase i) ≡ false
    → IsWaiting phase xs
    → IsWaiting (set_phase i p phase) xs
IsWaiting-set i p phase xs h w = elim (Bool-cases (in_channel i xs)) [
  | inl here ↦ absurd (cc (in_channel-is_queued i phase xs w here, h))
  | inr gone ↦ IsWaiting-absent i p phase xs gone w
]

IsWaiting-append :
    (x : QueuedJob) (phase : Text → Phase) (xs : List QueuedJob)
    → in_channel x.id xs ≡ false
    → phase x.id ≡ queued x
    → IsWaiting phase xs
    → IsWaiting phase (xs ++ x ∷ [])
IsWaiting-append x phase [] h q w = (q, refl, tt)
IsWaiting-append x phase (y ∷ ys) h q (q', fresh, w) = ground (
  arith,
  text_eq_iff y.id x.id,
  text_eq_iff x.id y.id,
  in_channel-append y.id ys x,
  IsWaiting-append x phase ys,
)
  where
    in_channel-append :
        (i : Text) (zs : List QueuedJob) (z : QueuedJob)
        → in_channel i (zs ++ z ∷ []) ≡ (if in_channel i zs then true else text_eq z.id i)
    in_channel-append i [] z = ground arith
    in_channel-append i (z' ∷ zs) z = ground (arith, in_channel-append i zs z)

pub IsWaiting-send :
    (i : Text) (x : QueuedJob) (phase : Text → Phase) (xs : List QueuedJob)
    → x.id ≡ i
    → is_queued (phase i) ≡ false
    → IsWaiting phase xs
    → IsWaiting (set_phase i (queued x) phase) (xs ++ x ∷ [])
IsWaiting-send i x phase xs e h w = elim (Bool-cases (in_channel i xs)) [
  | inl here ↦ absurd (cc (in_channel-is_queued i phase xs w here, h))
  | inr gone ↦
      IsWaiting-append x (set_phase i (queued x) phase) xs
        (subst (λ k. in_channel k xs ≡ false) (sym e) gone) (ground (arith, text_eq_iff i x.id))
        (IsWaiting-absent i (queued x) phase xs gone w)
]

pub IsWaiting-receive :
    (x : QueuedJob) (p : Phase) (phase : Text → Phase) (xs : List QueuedJob)
    → IsWaiting phase (x ∷ xs)
    → IsWaiting (set_phase x.id p phase) xs
IsWaiting-receive x p phase xs (q, fresh, w) = IsWaiting-absent x.id p phase xs fresh w

pub at_move : (i : Text) (p : Phase) (q : JobQueue) (w : World) → (move i p q w).phase i ≡ p
at_move i p q w = rw (text_eq_refl i) refl
