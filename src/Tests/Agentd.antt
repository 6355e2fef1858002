-- ===== src/Tests/Agentd.antt =====
-- The agent's set-up, run.
use remote_exec.Base.{◌≡◌, refl, Text, text_dec}
use remote_exec.Io.{Result, ok, err}
use remote_exec.Io.World.{World}
use remote_exec.Io.Calls.{hostname, now}
use remote_exec.Pki.{sign, new_csr, serial_number}
use remote_exec.Agentd.{mint_server_cert}
use remote_exec.Tests.Coding.{join_all, code_text, split}
use remote_exec.Tests.Forge.{crypto, block_of}
use remote_exec.Tests.Certificates.{ca}
use remote_exec.Tests.Data.{calm, start}

abbrev pair_of : Result (Text × Text) → Text × Text
pair_of (ok p) = p
pair_of (err e) = ("", "")

abbrev minted : Text × Text
minted = pair_of (mint_server_cert calm crypto ca start).0

abbrev after_minting : World
after_minting = (mint_server_cert calm crypto ca start).1

mint_runs : mint_server_cert calm crypto ca start ≡ (ok (minted.0, minted.1), after_minting)
unfolding mint_server_cert new_csr hostname sign now serial_number block_of split join_all code_text
    text_dec
mint_runs = refl
