-- ===== src/Rules/Bits.antt =====
-- The flag bits ACTION_* of libsmrender/smaction.h.
use smrender.Base.{Bool, true, false}

pub data Flag : Type 0 where
  threaded exec_once exec init finished open_way closed_way : Flag

-- `short flags`, a field for each bit.
pub record Flags : Type 0 where
  pub threaded_bit : Bool
  pub exec_once_bit : Bool
  pub exec_bit : Bool
  pub init_bit : Bool
  pub finished_bit : Bool
  pub open_way_bit : Bool
  pub closed_way_bit : Bool

-- The bit becomes `b`.
unfoldable pub put_bit : Bool → Flag → Flags → Flags
put_bit b threaded f = record f { threaded_bit = b }
put_bit b exec_once f = record f { exec_once_bit = b }
put_bit b exec f = record f { exec_bit = b }
put_bit b init f = record f { init_bit = b }
put_bit b finished f = record f { finished_bit = b }
put_bit b open_way f = record f { open_way_bit = b }
put_bit b closed_way f = record f { closed_way_bit = b }

-- flags |= flag
abbrev pub set_bit : Flag → Flags → Flags
set_bit = put_bit true

-- flags &= ~flag
abbrev pub clear_bit : Flag → Flags → Flags
clear_bit = put_bit false

-- (flags & flag) != 0
unfoldable pub is_set : Flag → Flags → Bool
is_set threaded f = f.threaded_bit
is_set exec_once f = f.exec_once_bit
is_set exec f = f.exec_bit
is_set init f = f.init_bit
is_set finished f = f.finished_bit
is_set open_way f = f.open_way_bit
is_set closed_way f = f.closed_way_bit

pub Flag-discrete : Discrete Flag
Flag-discrete = hlevel
