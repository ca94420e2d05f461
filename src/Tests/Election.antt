-- ===== src/Tests/Election.antt =====
-- Brains at concrete inputs.
use karte_os.Base.{List, [], ◌∷◌, ◌≢◌, some}
use karte_os.Fabric.Arbiter
use karte_os.Fabric.Arbiter.{
  Arbiter, Verb, elect, victory, heartbeat, follower, leader, tick, on_heartbeat,
}
use karte_os.Fabric.Arbiter.Votes.{Event, resolves, wins, fails, elects, step, after, never_elected}

abbrev brain : Arbiter
brain = Arbiter.new 1 10

abbrev rival : Arbiter
rival = Arbiter.new 2 20

-- The leader is lost and every other brain votes for this one.
abbrev campaign : List Event
campaign = wins 2 ∷ fails 10000 ∷ elects 1 10 10001 ∷ []

never_elected_example : (step (after brain campaign) resolves).0 ≢ some victory
never_elected_example = never_elected 1 10 campaign resolves
