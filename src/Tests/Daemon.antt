-- ===== src/Tests/Daemon.antt =====
-- The daemon as a service: its runs, its database and its settings.
use remote_exec.Base.{ℕ, suc, ◌<◌, ◌≡◌, ◌≢◌, refl, ap, text_dec, true, arith}
use remote_exec.Error.{Error, plain}
use remote_exec.Io.{ok, err, Action, pure}
use remote_exec.Io.World.{World}
use remote_exec.Agentd.Service.{
  System, Reach, here, next, Step, starts, moves, gets_ready, start, stop, idle, stopping,
  installed, ran,
}
use remote_exec.Agentd.Service.Runs.{live}
use remote_exec.Agentd.Service.Once.{serves_once}
use remote_exec.Agentd.Platform.{Sql, dsn_or_default, open_db, core}
use remote_exec.Agentd.Platform.Released.{Counts, core-count}
use remote_exec.Base.Dict.{lookup}
use remote_exec.Base.Trim.{trim_space, trim_left, trim_right, is_space}
use remote_exec.Error.{is_not_exist}
use remote_exec.Io.Calls.{hostname, read_file, attempt}
use remote_exec.Pki.{parse_cert, load_ca, fingerprint, fingerprint_pem}
use remote_exec.Identity.{agent_id}
use remote_exec.Policy.{load, default}
use remote_exec.Transport.{server_creds}
use remote_exec.Agentd.Serve
use remote_exec.Agentd.Serve.{Agent, load_agent}
use remote_exec.Tests.Coding.{join_all, code_text, split}
use remote_exec.Tests.Formats.{json}
use remote_exec.Tests.Forge.{
  crypto, der_of, cert_from, block_of, usage_text, key_usage_text, bool_text,
}
use remote_exec.Tests.Restart.{tls, no_policy, one_id, installed as on_disk}
use remote_exec.Tests.Data.{calm}

abbrev ready : Action World (Agent crypto)
ready = Serve.ready calm crypto tls json no_policy one_id "d" "127.0.0.1:50000" "1"

abbrev at_first : System ready
at_first = installed ready on_disk

abbrev at_start : System ready
at_start = record at_first {
  program = start at_first.program;
  manager = remote_exec.Agentd.Service.active;
}

abbrev at_work : System ready
at_work =
    ran ready at_start 0
      (record (at_start.program.runs 0) { phase = remote_exec.Agentd.Service.serving })
      (ready on_disk).1

works : Reach ready at_first at_work
unfolding start Serve.ready attempt load_agent read_file lookup text_dec load_ca parse_cert block_of
    split join_all code_text der_of cert_from usage_text key_usage_text bool_text agent_id
    is_not_exist trim_space trim_left trim_right is_space fingerprint_pem fingerprint load default
    hostname server_creds
works = next (next here (starts refl)) (moves 0 _ _ (omega arith) (gets_ready refl))

serves_once_example :
    (at_work.manager ≢ idle)
    × ((j : ℕ)
        → j < at_work.program.count
        → live (at_work.program.runs j).phase ≡ true
        → ◌≡◌ {A = ℕ} 0 j)
unfolding start
serves_once_example = serves_once ready on_disk at_work works 0 (omega arith) refl

-- A peer's call is pending when `Stop` is called, and while the run drains.
abbrev at_call : System ready
at_call = ran ready at_work 0 (record (at_work.program.runs 0) { pending = 1 }) at_work.world

abbrev at_stop : System ready
at_stop = record at_call { program = stop at_call.program; manager = stopping }

abbrev at_drain : System ready
at_drain =
    ran ready at_stop 0
      (record (at_stop.program.runs 0) { phase = remote_exec.Agentd.Service.draining })
      at_stop.world

-- A database that counts its openings.
abbrev counter : Sql ℕ
counter = record {
  Handle = Unit {0};
  open_dsn = λ dsn n. (ok tt, suc n);
  ping = λ h n. (err (plain "no such file"), n);
  close_handle = λ h n. (ok tt, Prim.Native.Nat.pred n);
}

counter-Counts : Counts counter
counter-Counts = record {
  count = λ n. n;
  opens = λ dsn h s e. refl;
  opens_none = λ dsn e s h. cc;
  pings = λ h s. refl;
  closes = λ h s n e. ap Prim.Native.Nat.pred e;
}

core-count_example :
    (counter-Counts.count (core counter "" (pure tt) (pure tt) 4).1 ≡ counter-Counts.count 4)
    × ((e : Error)
        → (open_db counter (dsn_or_default counter "") 4).0 ≡ err e
        → (core counter "" (pure tt) (pure tt) 4).0 ≡ err e)
core-count_example =
    core-count counter counter-Counts "" (pure tt) (pure tt) 4 (λ t. refl) (λ t. refl)
