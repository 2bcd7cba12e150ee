-- ===== src/Provider/Json/Charges.antt =====
-- What the steps of the visitor charge.
use tracepress.Base.{ℕ, suc, ◌+◌, ◌≤◌, ◌<◌, ◌≡◌, refl, subst, Option, none, some, arith, u64_max}
use tracepress.Provider.Json.{Budget, Charged, and_then, add_item, enter}
use tracepress.Provider.Json.Shape.{larger}

-- A budget that is not used up, at a depth that it allows.
abbrev pub Ready : Budget → ℕ → Type 0
Ready b depth =
    (b.items ≤ b.max_items)
    × (depth ≤ b.max_depth)
    × (b.max_items < u64_max)
    × (b.max_depth < u64_max)

-- What a step that succeeded charged: n members, h more levels.
abbrev pub Charges : Budget → Budget → ℕ → ℕ → ℕ → Type 0
Charges b b' depth n h =
    (b'.max_items ≡ b.max_items)
    × (b'.max_depth ≡ b.max_depth)
    × (b'.items ≡ b.items + n)
    × (b'.items ≤ b.max_items)
    × (depth + h ≤ b.max_depth)

pub and_then-some :
    {A B : Type 0} (r : Budget × Option A) (next : A → Charged B) {b' : Budget} {w : B}
    → and_then r next ≡ (b', some w)
    → (b : Budget) × (a : A) × (r ≡ (b, some a)) × (next a b ≡ (b', some w))
and_then-some (b, none) next e = cc
and_then-some (b, some a) next e = (b, a, refl, e)

pub add_item-Charges :
    (b b' : Budget) (depth : ℕ) {o : Unit {0}}
    → Ready b depth
    → add_item b ≡ (b', some o)
    → Charges b b' depth 1 0
unfolding add_item
add_item-Charges b b' depth ready e = ground arith

pub enter-Ready :
    (b b' : Budget) (depth next : ℕ)
    → Ready b depth
    → enter depth b ≡ (b', some next)
    → Ready b' next × Charges b b' depth 0 1 × (next ≡ suc depth)
unfolding enter
enter-Ready b b' depth next ready e = ground arith

-- A level that was entered, and what was charged inside it.
pub Charges-deeper :
    (b c d : Budget) (depth next n h : ℕ)
    → Charges b c depth 0 1
    → next ≡ suc depth
    → Charges c d next n h
    → Charges b d depth n (suc h)
Charges-deeper b c d depth next n h entered deeper inside = ground arith

pub returned :
    {A : Type 0} (P : Budget → A → Type 0) {b b' : Budget} {v w : A}
    → ◌≡◌ {A = Budget × Option A} (b, some v) (b', some w)
    → P b v
    → P b' w
returned P {b} {b'} {v} {w} e h =
    let budgets : b ≡ b' = cc in
    let values : v ≡ w = cc in subst (λ c. P c w) budgets (subst (P b) values h)

-- Steps in a row charge the sum, at the deeper of the two.
pub Charges-trans :
    (b c d : Budget) (depth n m h k : ℕ)
    → Charges b c depth n h
    → Charges c d depth m k
    → Charges b d depth (n + m) (larger h k)
Charges-trans b c d depth n m h k first second = ground arith

pub Charges-Ready :
    (b c : Budget) (depth n h : ℕ) → Ready b depth → Charges b c depth n h → Ready c depth
Charges-Ready b c depth n h ready charged = ground arith
