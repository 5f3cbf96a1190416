-- ===== src/Session/Cancellation.antt =====
-- `SshCancellation`: an atomic flag that the pumps share. Other threads may set it between any two
-- loads of this one: `others` says, load by load, whether one of them has just done so. Nothing
-- clears the flag.
use r_ssh.Base.{Bool, true, false, ◌||◌, List, [], ◌∷◌}

pub record SshCancellation : Type 0 where
  pub cancelled : Bool
  pub others : List Bool

unfoldable pub new : List Bool → SshCancellation
new schedule = record { cancelled = false; others = schedule }

unfoldable pub cancel : SshCancellation → SshCancellation
cancel c = record c { cancelled = true }

unfoldable pub load_in : List Bool → Bool → SshCancellation
load_in [] flag = record { cancelled = flag; others = [] }
load_in (set ∷ rest) flag = record { cancelled = flag || set; others = rest }

-- One load: the flag's value is the field `cancelled` of what it returns.
unfoldable pub load : SshCancellation → SshCancellation
unfolding load_in
load c = load_in c.others c.cancelled
