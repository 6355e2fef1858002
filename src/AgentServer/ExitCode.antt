-- ===== src/AgentServer/ExitCode.antt =====
-- The exit code on its way through the 32 bits of the message.
use remote_exec.Base.{◌+◌, ◌-◌, ◌%◌, ◌^◌, ◌≡◌, arith}
use remote_exec.Base.Int.{ℤ, pos, negsuc, ◌≤ℤ◌, ◌<ℤ◌, pos_part, neg_part}
use remote_exec.AgentServer.{int32}

-- The numbers that an int32 can hold.
abbrev pub IsInt32 : ℤ → Type 0
IsInt32 n = (negsuc (2 ^ 31 - 1) ≤ℤ n) × (n <ℤ pos (2 ^ 31))

-- The result is an int32 and differs from the code by a multiple of 2^32; a code that fits is kept.
pub int32-IsInt32 :
    (code : ℤ)
    → IsInt32 (int32 code)
      × ((pos_part code + neg_part (int32 code)) % 2 ^ 32
          ≡ (pos_part (int32 code) + neg_part code) % 2 ^ 32)
      × (IsInt32 code → int32 code ≡ code)
unfolding int32
int32-IsInt32 (pos n) = ((ground arith, ground arith), ground arith, λ h. ground arith)
int32-IsInt32 (negsuc n) = ((ground arith, ground arith), ground arith, λ h. ground arith)
