-- ===== src/Io/World.antt =====
-- What the process finds outside: files, a clock, random bytes, and calls that fail.
use remote_exec.Base.{ℕ, suc, Text, Option}
use remote_exec.Base.Int.{ℤ}
use remote_exec.Base.Dict.{Dict}

-- Whole files by path. Directories and permissions are not kept: that a call fails for want of
-- one is a fault below.
pub record World : Type 0 where
  pub files : Dict Text
  -- how many calls the process has made
  pub calls : ℕ

-- A call that fails, and what it leaves. For a read `part` is the data read before the failure,
-- for a write the bytes that the file holds afterwards, if it was opened at all.
pub record Fault : Type 0 where
  pub reason : Text
  pub part : Option Text

-- The environment's answer to the n-th call: any call may fail, any time may pass.
pub record Env : Type 0 where
  pub fault : ℕ → Option Fault
  pub now : ℕ → ℤ
  pub byte : ℕ → ℕ → ℕ
  pub hostname : ℕ → Text

-- The record of a call.
abbrev pub step : World → World
step w = record w { calls = suc w.calls }
