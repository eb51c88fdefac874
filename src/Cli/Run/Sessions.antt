-- ===== src/Cli/Run/Sessions.antt =====
-- What becomes of the stored session of the command line.
use nebula_clone.Prelude.{
  ℕ, true, false, Option, none, some, String, ◌===◌, str_discrete, ◌≡◌, refl, arith,
}
use nebula_clone.Prelude.Results.{ok, ◌>>=◌}
use nebula_clone.Js.Env.{is_empty, given}
use nebula_clone.Cli.{
  Flags, DeviceTarget, StoredOccupation, CommandContext, World, session_for, resolve_target,
  run_occupy, status_to_exit_code,
}
use nebula_clone.Cli.Run.{names_other, is_invalid}

same_text : (a : String) → (a === a) ≡ true
same_text a = ground (arith, str_discrete a a)

-- What `devices occupy` answers, with a device and an occupant that are not empty, is the target of a
-- command that finds the stored session as `occupy` left it, calls the same server, and names no device
-- and no occupant, by flag or by environment.
pub resolve_target-run_occupy :
    (first later : CommandContext) (w : World) (t : DeviceTarget)
    → first.client.occupy first.flags.device_id first.flags.platform first.flags.tags ≡ ok t
    → is_empty t.device_id ≡ false
    → is_empty t.occupant_id ≡ false
    → later.server_url ≡ first.server_url
    → later.flags.device_id ≡ none
    → later.flags.occupant_id ≡ none
    → later.env "NEBULA_OCCUPANT_ID" ≡ none
    → (run_occupy first w >>= λ w'. resolve_target later w') ≡ ok t
unfolding run_occupy resolve_target session_for
resolve_target-run_occupy first later w t answer d o server no_device no_occupant no_variable =
    rw (answer) (
      rw (server) (
        rw (same_text first.server_url) (
          rw (no_device) (
            rw (d)
              (rw (no_occupant) (rw (no_variable) (rw (same_text t.device_id) (rw (o) refl))))))))

-- A stored session that a call takes away after an error of the server.
pub record IsCleared (exit_code : ℕ) (key : String) (url : String) (flags : Flags)
    (before : Option StoredOccupation) : Type 0 where
  pub stored : StoredOccupation
  pub was_stored : before ≡ some stored
  pub of_this_server : (stored.server_url === url) ≡ true
  pub same_device : names_other (given flags.device_id) stored.device_id ≡ false
  pub same_occupant : names_other (given flags.occupant_id) stored.occupant_id ≡ false
  pub status : ℕ
  pub invalid : is_invalid key status ≡ true
  pub answered : exit_code ≡ status_to_exit_code status
