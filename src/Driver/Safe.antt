-- ===== src/Driver/Safe.antt =====
-- jordyOS/net/rtl8139.c: the safety of `rtl_poll`.
use os_research_lab.Base.{ℕ}
use os_research_lab.Driver.{Driver, driver_error}
use os_research_lab.Driver.Restart.{IsDriver}
use os_research_lab.Driver.Poll.{Look, Polled, ended, stopped}

abbrev driver_of : Polled → Driver
driver_of (ended d) = d
driver_of (stopped d) = d

driver_error-IsDriver :
    (look : ℕ → Look) (c : ℕ) (d : Driver) → IsDriver look c d → IsDriver look c (driver_error d)
driver_error-IsDriver look c d v = v

-- What the loop leaves.
abbrev Left : (ℕ → Look) → ℕ → Polled → Type 0
Left look c p = IsDriver look c (driver_of p)
