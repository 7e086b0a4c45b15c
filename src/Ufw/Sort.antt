-- ===== src/Ufw/Sort.antt =====
-- `sort.Sort(sort.Reverse(sort.IntSlice(nums)))` and `sort.Strings`. Equal numbers and equal texts
-- cannot be told apart, so any sorting algorithm gives this result.
use Prim.Native.Nat.{Ordering}
use Prim.Native.String.{compare}
use vmkit_agent.Base.{
  ℕ, ◌+◌, ◌<◌, String, Bool, true, false, ◌||◌, List, [], ◌∷◌, ◌≡◌, refl, ◌∙◌, Bool-cases, inl, inr,
  arith, ltb, ◌==◌, ◌==ₛ◌, if◌then◌else◌, All,
}

unfoldable pub insert_desc : ℕ → List ℕ → List ℕ
insert_desc n [] = n ∷ []
insert_desc n (m ∷ ms) = let rest = insert_desc n ms in if ltb n m then m ∷ rest else n ∷ m ∷ ms

unfoldable pub sort_desc : List ℕ → List ℕ
unfolding insert_desc
sort_desc [] = []
sort_desc (n ∷ ns) = insert_desc n (sort_desc ns)

abbrev pub str_lt : String → String → Bool
str_lt s t = elim (compare s t) [ Ordering.lt ↦ true | _ ↦ false ]

insert_string : String → List String → List String
insert_string s [] = s ∷ []
insert_string s (t ∷ ts) =
    let rest = insert_string s ts in if str_lt t s then t ∷ rest else s ∷ t ∷ ts

unfoldable pub sort_strings : List String → List String
unfolding insert_string
sort_strings [] = []
sort_strings (s ∷ ss) = insert_string s (sort_strings ss)

abbrev pub num_member : ℕ → List ℕ → Bool
num_member n [] = false
num_member n (m ∷ ms) = m == n || num_member n ms

abbrev pub count : String → List String → ℕ
count c [] = 0
count c (s ∷ ss) = (if s ==ₛ c then 1 else 0) + count c ss

-- From the largest number to the smallest, each once.
pub data IsDescending : List ℕ → Type 0 where
  nil : IsDescending []
  cons : {n : ℕ} {ns : List ℕ} → All (λ m. m < n) ns → IsDescending ns → IsDescending (n ∷ ns)

abbrev pub AllDistinct : List ℕ → Type 0
AllDistinct [] = Unit
AllDistinct (n ∷ ns) = (num_member n ns ≡ false) × AllDistinct ns

num_member-insert_desc :
    (k n : ℕ) (ns : List ℕ) → num_member k (insert_desc n ns) ≡ (n == k || num_member k ns)
unfolding insert_desc
num_member-insert_desc k n [] = refl
num_member-insert_desc k n (m ∷ ms) = ground (arith, num_member-insert_desc k n ms)

pub num_member-sort_desc : (k : ℕ) (ns : List ℕ) → num_member k (sort_desc ns) ≡ num_member k ns
unfolding sort_desc
num_member-sort_desc k [] = refl
num_member-sort_desc k (n ∷ ns) =
    ground (arith, num_member-insert_desc k n (sort_desc ns), num_member-sort_desc k ns)

All-insert_desc :
    (n k : ℕ) (ns : List ℕ) → n < k → All (λ m. m < k) ns → All (λ m. m < k) (insert_desc n ns)
unfolding insert_desc
All-insert_desc n k [] h a = (h, tt)
All-insert_desc n k (m ∷ ms) h a = ground (arith, All-insert_desc n k ms)

below_trans : (n k : ℕ) (ns : List ℕ) → n < k → All (λ m. m < n) ns → All (λ m. m < k) ns
below_trans n k [] h a = tt
below_trans n k (m ∷ ms) h a = (omega arith, below_trans n k ms h a.1)

insert_desc-IsDescending :
    (n : ℕ) {ns : List ℕ}
    → IsDescending ns
    → num_member n ns ≡ false
    → IsDescending (insert_desc n ns)
unfolding insert_desc
insert_desc-IsDescending n nil h = cons tt nil
insert_desc-IsDescending n (cons {n = m} {ns = ms} a d) h = elim (Bool-cases (ltb n m)) [
  | inl lt ↦
      let below : n < m = ground arith in
      rw lt (cons (All-insert_desc n m ms below a) (insert_desc-IsDescending n d (ground arith)))
  | inr ge ↦
      let above : m < n = ground arith in
      rw ge (cons (above, below_trans m n ms above a) (cons a d))
]

-- Numbers that are distinct are sorted from the largest to the smallest, each once.
pub sort_desc-IsDescending : (ns : List ℕ) → AllDistinct ns → IsDescending (sort_desc ns)
unfolding sort_desc
sort_desc-IsDescending [] h = nil
sort_desc-IsDescending (n ∷ ns) h =
    insert_desc-IsDescending n (sort_desc-IsDescending ns h.1) (num_member-sort_desc n ns ∙ h.0)

count-insert_string :
    (c s : String) (ss : List String) → count c (insert_string s ss) ≡ count c (s ∷ ss)
unfolding insert_string
count-insert_string c s [] = refl
count-insert_string c s (t ∷ ts) = ground (arith, count-insert_string c s ts)

pub count-sort_strings : (c : String) (ss : List String) → count c (sort_strings ss) ≡ count c ss
unfolding sort_strings
count-sort_strings c [] = refl
count-sort_strings c (s ∷ ss) =
    omega (arith, count-insert_string c s (sort_strings ss), count-sort_strings c ss)
