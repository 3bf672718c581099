-- ===== src/Ordering/Worker/Retry.antt =====
-- The delays of worker.go.
use b46_ordering_app_backend.Base.{
  ℕ, zero, suc, ◌-◌, ◌*◌, ◌/◌, ◌^◌, ◌≤◌, ◌≡◌, arith, pos, mul64, div64, mul64_exact, max_int64,
}
use Prim.Native.Nat.{min}
use native.Mathlib.Nat.{pow-zero, pow-suc}
use b46_ordering_app_backend.Ordering.Worker.{WorkerConfig, retry_loop, retry_delay}

double : (b m : ℕ) → b ≤ m / 2 → m ≤ max_int64 → mul64 (pos b) (pos 2) ≡ pos (b * 2)
double b m h k = mul64_exact b 2 (omega arith)

grow : (b k : ℕ) → b ≤ b * 2 ^ k
grow b zero = omega (arith, pow-zero 2)
grow b (suc k) = grind (arith, pow-suc 2 k, grow b k)

shift : (b k : ℕ) → b * 2 ^ suc k ≡ b * 2 * 2 ^ k
shift b k = rw (pow-suc 2 k) (omega arith)

retry_loop_lem :
    (k b m : ℕ) → m ≤ max_int64 → retry_loop k (pos b) (pos m) ≡ pos (min (b * 2 ^ k) m)
unfolding retry_loop div64
retry_loop_lem zero b m h = ground arith
retry_loop_lem (suc k) b m h =
    ground (arith, double b m, retry_loop_lem k (b * 2) m, shift b k, grow (b * 2) k)

-- With a base and a maximum that are not negative, and a maximum that int64 holds, attempt n waits
-- base * 2 ^ (n - 1), at most the maximum: the doubling never overflows.
pub retry_delay_lem :
    (config : WorkerConfig) (b m n : ℕ)
    → config.retry_base ≡ pos b
    → config.retry_max ≡ pos m
    → m ≤ max_int64
    → retry_delay config n ≡ pos (min (b * 2 ^ (n - 1)) m)
unfolding retry_delay
retry_delay_lem config b m n hb hm h = rw (hb, hm) (retry_loop_lem (n - 1) b m h)
