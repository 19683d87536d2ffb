-- ===== src/Convert/Result.antt =====
-- How an operation of convert ends: normally, by an exception that nothing catches, by exit(1), or
-- in undefined behaviour.

pub data Error : Type 0 where
  -- `logic_error`: the operation does not exist on this class of lock
  invalid_op : Error
  -- `logic_error`: both sides of one lock are held
  invalid_state : Error
  -- `invalid_argument`: the id of a sub lock that the class does not have
  invalid_sub_lock : Error
  -- `exit(1)` on an unknown lock type, and on a second lock at one address
  unknown_lock_type : Error
  lock_not_inserted : Error
  -- `pop()` on an empty `std::stack`, which is undefined
  pop_on_empty : Error

pub data Result {ℓ} (A : Type ℓ) : Type ℓ where
  ok : A → Result A
  err : Error → Result A

infixl 5 ◌>>=◌
abbrev pub ◌>>=◌ {ℓ κ} : {A : Type ℓ} {B : Type κ} → Result A → (A → Result B) → Result B
ok a >>= f = f a
err e >>= f = err e
