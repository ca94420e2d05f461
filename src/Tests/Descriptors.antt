-- ===== src/Tests/Descriptors.antt =====
-- Descriptor tables at concrete inputs.
use karte_os.Base.{ℕ, none, ◌≡◌}
use karte_os.Base.Assoc.{get as find}
use karte_os.Base.Strings.{codes}
use karte_os.Driver.FdTable.{FileDescriptor, file, plain, new, place, get, drain_open_fds}
use karte_os.Driver.FdTable.Places.{Places, place-Places, get-drain_open_fds}

abbrev notes : ℕ → FileDescriptor
notes i = plain (codes "/notes") 0 file i

-- The three standard streams are open.
place-Places_example : Places new notes (place new notes)
place-Places_example = place-Places new notes

get-drain_open_fds_example :
    (find (drain_open_fds new).0 1 ≡ get new 1) × (get (drain_open_fds new).1 1 ≡ none)
get-drain_open_fds_example = get-drain_open_fds new 1
