-- ===== src/Error.antt =====
-- include/coasio/error.hpp: the library's error codes, their category, and the results of the
-- awaitables, `std::expected<T, std::error_code>`.
use Prim.Native.String.{String}
use coasio.Common.{ℕ, ◌≡◌, refl, Option, none, some, ◌==◌, if◌then◌else◌, ◌↔◌}

pub data Error : Type 0 where
  cancelled channel_closed semaphore_closed : Error

-- `static_cast<int>`
abbrev pub value_of : Error → ℕ
value_of cancelled = 1
value_of channel_closed = 2
value_of semaphore_closed = 3

-- `static_cast<error>`: an enumeration holds any `int`, `none` stands for the other values.
abbrev pub error_of : ℕ → Option Error
error_of n =
    if n == 1
    then some cancelled
    else if n == 2
    then some channel_closed
    else if n == 3
    then some semaphore_closed
    else none

pub data Expected {ℓ} (A : Type ℓ) : Type ℓ where
  ok : A → Expected A
  err : Error → Expected A

-- `error_category::message`
pub message : ℕ → String
message ev = elim (error_of ev) [
  | none ↦ "unknown coasio error"
  | some e ↦ elim e [
    | cancelled ↦ "operation cancelled"
    | channel_closed ↦ "channel closed"
    | semaphore_closed ↦ "semaphore closed"
  ]
]

-- The condition that a code stands for: a POSIX one, or the code itself in its own category.
pub data Condition : Type 0 where
  operation_canceled : Condition
  same_code : ℕ → Condition

-- `error_category::default_error_condition`
pub default_error_condition : ℕ → Condition
default_error_condition ev = if ev == 1 then operation_canceled else same_code ev

-- A code with its category, `coasio_category()`.
pub record ErrorCode : Type 0 where
  pub code : ℕ
  pub category : String

pub make_error_code : Error → ErrorCode
make_error_code e = record { code = value_of e; category = "coasio" }

-- The codes are distinct, and only `cancelled` is the POSIX condition.
pub default_error_condition_iff :
    (e : Error)
    → (default_error_condition (make_error_code e).code ≡ operation_canceled) ↔ (e ≡ cancelled)
unfolding default_error_condition make_error_code
default_error_condition_iff cancelled = ((λ _. refl), (λ _. refl))
default_error_condition_iff channel_closed = ((λ h. cc), (λ h. cc))
default_error_condition_iff semaphore_closed = ((λ h. cc), (λ h. cc))

pub error_of-make_error_code : (e : Error) → error_of (make_error_code e).code ≡ some e
unfolding make_error_code
error_of-make_error_code cancelled = refl
error_of-make_error_code channel_closed = refl
error_of-make_error_code semaphore_closed = refl
