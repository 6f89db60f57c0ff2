-- ===== src/Kube/Names.antt =====
-- What the controllers take from the API machinery: names of objects, their metadata, the result
-- of a reconciliation, and durations in nanoseconds.
use automotive_dev_operator.Base.{ℕ, ◌*◌, String, StringMap, Bool, true, false, Option, List}

-- `types.NamespacedName`, `client.ObjectKey`
pub record Key : Type 0 where
  pub namespace : String
  pub name : String

-- The fields of `metav1.TypeMeta` and `metav1.ObjectMeta` that the program reads or writes. A time
-- is a number of nanoseconds.
pub record ObjectMeta : Type 0 where
  pub api_version : String
  pub kind : String
  pub name : String
  pub namespace : String
  pub uid : String
  pub labels : StringMap
  pub annotations : StringMap
  pub finalizers : List String
  pub creation_timestamp : ℕ
  pub deletion_timestamp : Option ℕ

abbrev pub key_of : ObjectMeta → Key
key_of m = record { namespace = m.namespace; name = m.name }

-- `ctrl.Result`
pub record CtrlResult : Type 0 where
  pub requeue : Bool
  pub requeue_after : ℕ

abbrev pub done : CtrlResult
done = record { requeue = false; requeue_after = 0 }

abbrev pub requeue_now : CtrlResult
requeue_now = record { requeue = true; requeue_after = 0 }

abbrev pub after : ℕ → CtrlResult
after d = record { requeue = false; requeue_after = d }

abbrev pub second : ℕ
second = 1_000_000_000

abbrev pub minute : ℕ
minute = 60 * second

abbrev pub hour : ℕ
hour = 60 * minute
