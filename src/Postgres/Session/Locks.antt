-- ===== src/Postgres/Session/Locks.antt =====
-- The keys of the advisory locks that hold an epoch, as
-- disintegrate-postgres/src/event_store/sql/fn_event_store_begin_epoch.sql takes them and
-- fn_event_store_current_epoch.sql reads them back from `pg_locks`.
use disintegrate.Prelude.{
  ℕ, ◌+◌, ◌-◌, ◌*◌, ◌/◌, ◌%◌, ◌^◌, ◌<◌, ◌≡◌, ltb, arith, Bool-cases, inl, inr, if◌then◌else◌,
}
use disintegrate.Prelude.Int.{ℤ, pos, negsuc}
use disintegrate.Event.{EventId}

-- `::bit(32)::integer`: the low 32 bits in two's complement.
abbrev pub to_integer : ℕ → ℤ
to_integer n =
    let low = n % 2 ^ 32 in if ltb low (2 ^ 31) then pos low else negsuc (2 ^ 32 - 1 - low)

-- The column `objid` is an `oid`: the bits of the key, without a sign.
abbrev pub objid : ℤ → ℕ
objid (pos n) = n % 2 ^ 32
objid (negsuc n) = 2 ^ 32 - 1 - n % 2 ^ 32

-- The second keys of the locks of the classes 1 and 2.
abbrev pub lock_keys : EventId → ℤ × ℤ
lock_keys id = (to_integer (id % 2 ^ 32), to_integer (id / 2 ^ 32))

-- `(l3.objid::bigint << 32) + l2.objid::bigint`
abbrev pub locked_id : ℤ × ℤ → EventId
locked_id (low, high) = objid high * 2 ^ 32 % 2 ^ 64 + objid low

objid-to_integer : (n : ℕ) → objid (to_integer n) ≡ n % 2 ^ 32
objid-to_integer n = elim (Bool-cases (ltb (n % 2 ^ 32) (2 ^ 31))) [
  | inl y ↦ rw y (omega arith)
  | inr m ↦ rw m (omega arith)
]

-- The keys lose nothing of an id that a `bigint` holds: the id that is read back from the locks is the
-- one that they were taken for, also where a half of it has its highest bit set.
pub locked_id-lock_keys : (id : EventId) → id < 2 ^ 63 → locked_id (lock_keys id) ≡ id
locked_id-lock_keys id h =
    rw (objid-to_integer (id % 2 ^ 32), objid-to_integer (id / 2 ^ 32)) (omega arith)
