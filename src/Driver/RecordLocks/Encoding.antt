-- ===== src/Driver/RecordLocks/Encoding.antt =====
-- The 24 bytes of a Flock of kernel/src/driver/fs.rs.
use karte_os.Base.{◌^◌, ◌<◌, ◌≡◌, refl, length}
use karte_os.Base.Bytes.{to_bytes_le, from_bytes_le-to_bytes_le}
use karte_os.Driver.RecordLocks.{Flock, from_bytes, to_bytes}

-- Every field fits its type.
pub record Fits (f : Flock) : Type 0 where
  pub type_fits : f.l_type < 256 ^ 2
  pub whence_fits : f.l_whence < 256 ^ 2
  pub start_fits : f.l_start < 256 ^ 8
  pub len_fits : f.l_len < 256 ^ 8
  pub pid_fits : f.l_pid < 256 ^ 4

-- A Flock whose fields fit is read back from its bytes, and there are 24 of them.
pub from_bytes-to_bytes :
    (f : Flock) → Fits f → (from_bytes (to_bytes f) ≡ f) × (length (to_bytes f) ≡ 24)
unfolding from_bytes to_bytes to_bytes_le
from_bytes-to_bytes f h = (
  λ i. record {
    l_type = from_bytes_le-to_bytes_le 2 f.l_type h.type_fits i;
    l_whence = from_bytes_le-to_bytes_le 2 f.l_whence h.whence_fits i;
    l_start = from_bytes_le-to_bytes_le 8 f.l_start h.start_fits i;
    l_len = from_bytes_le-to_bytes_le 8 f.l_len h.len_fits i;
    l_pid = from_bytes_le-to_bytes_le 4 f.l_pid h.pid_fits i;
  },
  refl,
)
