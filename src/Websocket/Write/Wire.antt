-- ===== src/Websocket/Write/Wire.antt =====
-- The frames of a message, one behind the other.
use smrender.Base.{ℕ, ◌<◌, ◌≡◌, Bool, true, false, List, [], ◌∷◌, ◌++◌}
use smrender.Bstring.{Bytes}
use smrender.Websocket.Write.Sent.{IsSent}

-- The bytes of the frames, of which the last one stands first in the list.
abbrev pub wire : List Bytes → Bytes
wire [] = []
wire (b ∷ w) = wire w ++ b

-- `out` are the frames of the message `buf`, of which the last one has WS_FIN, and no other.
pub data Message (size : ℕ) : Bytes → Bytes → Type 0 where
  last : {frm payload : Bytes} → IsSent size frm payload true → Message size payload frm
  more :
      {frm payload buf out : Bytes}
      → IsSent size frm payload false
      → Message size buf out
      → Message size (payload ++ buf) (frm ++ out)

-- Of `n` bytes the last frame takes all.
abbrev pub IsLast : Bool → ℕ → ℕ → Type 0
IsLast true plen n = plen ≡ n
IsLast false plen n = plen < n
