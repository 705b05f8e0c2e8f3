-- ===== src/Processes/Explore.antt =====
-- All runs of a system of processes, tried out.
use study_eltex.Prelude.{ℕ, zero, suc, ◌≤◌, ◌≡◌, Bool, true, false, List, [], ◌∷◌, ◌&&◌, arith}
use mathlib.Core.List.{Memᴰ}
use study_eltex.Processes.{System, successors, Steps, done, first}

-- `b` where nothing follows, and else what holds of all that follows.
unfoldable pub verdict : Bool → (System → Bool) → List System → Bool
verdict b f [] = b
verdict b f (t ∷ []) = f t
verdict b f (t ∷ u ∷ ts) = f t && verdict b f (u ∷ ts)

-- Every run ends after at most `n` steps, and where it ends, `good` holds.
unfoldable pub all_end : (System → Bool) → (n : ℕ) → System → Bool
all_end good zero s = verdict (good s) (λ t. false) (successors s)
all_end good (suc n) s = verdict (good s) (all_end good n) (successors s)

member-verdict :
    (b : Bool) (f : System → Bool) (l : List System) (t : System)
    → verdict b f l ≡ true
    → Memᴰ t l
    → f t ≡ true
unfolding verdict
member-verdict b f [] t h m = elim m [ ]
member-verdict b f (u ∷ []) t h (Memᴰ.tail m) = elim m [ ]
member-verdict b f (u ∷ []) t h (Memᴰ.head e) = rw e h
member-verdict b f (u ∷ v ∷ ts) t h (Memᴰ.head e) = rw e (ground arith)
member-verdict b f (u ∷ v ∷ ts) t h (Memᴰ.tail m) = member-verdict b f (v ∷ ts) t (ground arith) m

none-verdict :
    (b : Bool) (f : System → Bool) (l : List System) → verdict b f l ≡ true → l ≡ [] → b ≡ true
unfolding verdict
none-verdict b f [] h e = h
none-verdict b f (t ∷ ts) h e = absurd (ground arith)

pub all_end-Steps :
    (good : System → Bool) (n : ℕ) (s : System) (k : ℕ) (t : System)
    → all_end good n s ≡ true
    → Steps s k t
    → (k ≤ n) × (successors t ≡ [] → good t ≡ true)
unfolding all_end
all_end-Steps good zero s k t h done = (omega arith, λ e. none-verdict _ _ (successors s) h e)
all_end-Steps good (suc n) s k t h done = (omega arith, λ e. none-verdict _ _ (successors s) h e)
all_end-Steps good zero s k t h (first m steps) =
    absurd
      (let no : false ≡ true = member-verdict _ (λ t. false) (successors s) _ h m in ground arith)
all_end-Steps good (suc n) s (suc k) t h (first m steps) =
    let r = all_end-Steps good n _ k t (member-verdict _ _ (successors s) _ h m) steps in
    (omega arith, r.1)
