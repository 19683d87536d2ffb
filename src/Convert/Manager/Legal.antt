-- ===== src/Convert/Manager/Legal.antt =====
-- TXNs of sub locks that their locks have, and the ids asked for them.
use lockdoc_tools.Common.{◌==◌, ==_iff, subst, ℕ, ◌≡◌, true, List, [], ◌∷◌, All}
use lockdoc_tools.Convert.Result.{ok}
use lockdoc_tools.Convert.Lock.{SubLock, RwLock, has_sub_lock, sub_id, get_id}
use lockdoc_tools.Convert.Manager.{Txn, Notice, Message, LockManager, say, message_about, report}

abbrev pub HasSubLock : RwLock → SubLock → Type 0
HasSubLock l s = has_sub_lock l.class s ≡ true

abbrev pub IsLegal : (ℕ → RwLock) → Txn → Type 0
IsLegal h t = HasSubLock (h t.lock) t.sub_lock

abbrev pub Legal : (ℕ → RwLock) → List Txn → Type 0
Legal h = All (IsLegal h)

pub get_id-ok : (l : RwLock) (s : SubLock) → HasSubLock l s → get_id l s ≡ ok (sub_id l s)
get_id-ok l s h = rw h

abbrev pub message_of : RwLock → SubLock → Notice → List Message
message_of l s n = record { notice = n; about = sub_id l s } ∷ []

pub message_about-ok :
    (l : RwLock) (s : SubLock) (n : Notice)
    → HasSubLock l s
    → message_about l s n ≡ ok (message_of l s n)
message_about-ok l s n h = rw h

pub report-ok :
    (p : ℕ) (s : SubLock) (n : Notice) (m : LockManager)
    → HasSubLock (m.heap p) s
    → report p s n m ≡ ok (say (message_of (m.heap p) s n) m)
report-ok p s n m h = rw h

pub HasSubLock-at :
    (h : ℕ → RwLock) (p : ℕ) (t : Txn)
    → IsLegal h t
    → (t.lock == p) ≡ true
    → HasSubLock (h p) t.sub_lock
HasSubLock-at h p t l e = subst (λ q. HasSubLock (h q) t.sub_lock) ((==_iff t.lock p).0 e) l
