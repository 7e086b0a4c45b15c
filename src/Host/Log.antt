-- ===== src/Host/Log.antt =====
-- Tests on the calls that a program has made.
use vmkit_agent.Base.{
  String, Bool, true, false, not, ◌&&◌, ◌||◌, List, [], ◌∷◌, ◌≡◌, refl, arith, ◌==ₛ◌,
}
use vmkit_agent.Host.Core.{Call, exec, Trace, Host, Reply, succeeded}

abbrev pub argv_eq : List String → List String → Bool
argv_eq [] [] = true
argv_eq (x ∷ xs) (y ∷ ys) = (x ==ₛ y) && argv_eq xs ys
argv_eq _ _ = false

-- The call runs this command, in whatever directory and under whatever limit.
abbrev pub runs : List String → Call → Bool
runs argv (exec dir limit argv') = argv_eq argv argv'
runs argv _ = false

-- A call that `p` accepts was made.
abbrev pub made : (Call → Bool) → Trace → Bool
made p [] = false
made p (c ∷ w) = p c || made p w

-- A call that `p` accepts was made and succeeded.
abbrev pub done : Host → (Call → Bool) → Trace → Bool
done host p [] = false
done host p (c ∷ w) = (p c && succeeded (host c w)) || done host p w

-- Each call that `p` accepts was made when `q` held of the calls before it.
abbrev pub guarded : (Call → Bool) → (Trace → Bool) → Trace → Bool
guarded p q [] = true
guarded p q (c ∷ w) = (not (p c) || q w) && guarded p q w

-- A call that was made and its reply are such that `p` accepts them.
abbrev pub answered : Host → (Call → Reply → Bool) → Trace → Bool
answered host p [] = false
answered host p (c ∷ w) = p c (host c w) || answered host p w

pub guarded-none :
    (p : Call → Bool) (q : Trace → Bool) (w : Trace) → made p w ≡ false → guarded p q w ≡ true
guarded-none p q [] h = refl
guarded-none p q (c ∷ w) h = ground (arith, guarded-none p q w)

pub guarded-and :
    (p : Call → Bool) (q r : Trace → Bool) (w : Trace)
    → guarded p q w ≡ true
    → guarded p r w ≡ true
    → guarded p (λ w'. q w' && r w') w ≡ true
guarded-and p q r [] g h = refl
guarded-and p q r (c ∷ w) g h = ground (arith, guarded-and p q r w)
