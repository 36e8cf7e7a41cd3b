-- ===== src/Vmtest/Context.antt =====
-- vmtest/src/tests.cpp: `Context`, the connection and the guests that the tests boot and share.
pub mod Overlays
pub mod Guests
pub mod Shared
use computing_test_plat.Base.{
  ℕ, ◌+◌, ◌*◌, List, [], ◌∷◌, ◌++◌, Option, none, some, Bool, true, false, not, ◌&&◌, ◌||◌, ◌==◌,
  if◌then◌else◌, Text, codes, is_empty,
}
use computing_test_plat.Base.Int.{ℤ, pos, negsuc}
use computing_test_plat.Base.Ascii.{decimal}
use computing_test_plat.Vmtest.Config.{Config}
use computing_test_plat.Vmtest.Machine.{
  Exception, failure, Domain, removed, Env, World, M, ◌>>=◌, ◌>>◌, pure, throw, catch, on_throw,
  modify, gets, tell, require, wait_until, run_cmd,
}
use computing_test_plat.Vmtest.Virt.{
  DomState, shut_off, gone, same_state, build_domain_xml, connection, create_transient, state,
  destroy, agent_command, release_handle,
}

-- `fs::path(dir) / name` for a name that is not absolute.
unfoldable pub join_path : Text → Text → Text
join_path [] name = name
join_path (c ∷ []) name = if c == 47 then c ∷ name else c ∷ 47 ∷ name
join_path (c ∷ d ∷ dir) name = c ∷ join_path (d ∷ dir) name

abbrev pub integer_text : ℤ → Text
integer_text (pos n) = decimal n
integer_text (negsuc n) = 45 ∷ decimal (n + 1)

abbrev pub is_number : ℕ → ℤ → Bool
is_number n (pos k) = k == n
is_number n (negsuc k) = false

unfoldable pub remove_file : Text → M Unit
remove_file path = if is_empty path then pure tt else tell (removed path)

-- The reply is left aside, and so is any exception.
unfoldable pub agent_alive : Env → Domain → ℕ → M Bool
unfolding agent_command
agent_alive env vm timeout_s =
    catch (agent_command env vm (codes "{\"execute\":\"guest-ping\"}") timeout_s >>= λ _. pure true)
      λ _. pure false

module _ (env : Env) (cfg : Config) where
  unfoldable pub vm_name : ℕ → Text
  vm_name id = codes "vmtest-" ++ (decimal env.pid ++ (codes "-" ++ decimal id))

  unfoldable pub overlay_path : ℕ → Text
  unfolding vm_name join_path
  overlay_path id = join_path cfg.work_dir (vm_name id ++ codes ".qcow2")

  unfoldable pub overlay_command : Text → List Text
  overlay_command overlay =
      codes "qemu-img"
      ∷ codes "create"
      ∷ codes "-q"
      ∷ codes "-f"
      ∷ codes "qcow2"
      ∷ codes "-F"
      ∷ cfg.image_format
      ∷ codes "-b"
      ∷ env.absolute cfg.image
      ∷ overlay
      ∷ []

  abbrev pub made : Text → ℤ → M Text
  made overlay rc =
      if is_number 127 rc
      then throw (failure (codes "qemu-img not found in PATH (install qemu-utils)"))
      else if is_number 0 rc
      then pure overlay
      else throw (
          failure (
            codes "qemu-img create failed (rc="
            ++ (integer_text rc ++ codes "); check --image and --work-dir")))

  -- The guest writes to a throwaway file over the image.
  unfoldable pub make_overlay : ℕ → M Text
  unfolding overlay_path overlay_command run_cmd decimal
  make_overlay id = run_cmd env (overlay_command (overlay_path id)) >>= made (overlay_path id)

  unfoldable pub wait_for_agent : Domain → M Unit
  unfolding agent_alive wait_until
  wait_for_agent vm =
      wait_until env (cfg.boot_timeout_s * 1000) 2000 (agent_alive env vm 2) >>= λ up. require up (
        codes "guest agent did not answer within "
        ++ (decimal cfg.boot_timeout_s
            ++ codes "s (is qemu-guest-agent installed and enabled in the image?)"))

  -- The part under `try`, with the domain freed where it does not come up.
  unfoldable pub boot : ℕ → Text → M Domain
  unfolding connection create_transient wait_for_agent build_domain_xml vm_name
  boot id overlay =
      connection env cfg.uri
      >> (create_transient env
            (build_domain_xml (vm_name id) cfg.vcpus cfg.mem_mib overlay (codes "qcow2"))
            (vm_name id)
          >>= λ vm. on_throw (wait_for_agent vm) (release_handle vm) >> pure vm)

  -- `overlay_out` takes the path of the overlay before the guest boots.
  unfoldable pub boot_fresh_vm : (Text → M Unit) → M Domain
  unfolding make_overlay boot remove_file
  boot_fresh_vm overlay_out =
      modify (λ w. record w { next_id = w.next_id + 1 })
      >> (gets (λ w. w.next_id) >>= λ id. make_overlay id >>= λ overlay.
          overlay_out overlay >> on_throw (boot id overlay) (remove_file overlay))

  abbrev pub is_over : DomState → Bool
  is_over st = same_state st gone || same_state st shut_off

  abbrev pub stop : Option Domain → M Unit
  stop none = pure tt
  stop (some vm) =
      catch (state env vm >>= λ st. if is_over st then pure tt else destroy env vm) (λ _. pure tt)
      >> (release_handle vm >> modify (λ w. record w { vm = none }))

  unfoldable pub release_vm : M Unit
  unfolding state destroy remove_file
  release_vm = gets (λ w. w.vm) >>= λ vm.
      stop vm
      >> (gets (λ w. w.overlay) >>= λ overlay.
          remove_file overlay >> modify (λ w. record w { overlay = [] }))

  abbrev pub set_overlay : Text → M Unit
  set_overlay path = modify λ w. record w { overlay = path }

  -- The shared guest, booted anew.
  unfoldable pub boot_shared : M Domain
  unfolding release_vm boot_fresh_vm
  boot_shared =
      release_vm
      >> (boot_fresh_vm set_overlay >>= λ vm. modify (λ w. record w { vm = some vm }) >> pure vm)

  abbrev pub reuse_valid : Option ℕ → Domain → M Domain
  reuse_valid none vm = boot_shared
  reuse_valid (some h) vm =
      state env vm >>= λ st. if same_state st gone then boot_shared else pure vm

  abbrev pub reuse : Option Domain → M Domain
  reuse none = boot_shared
  reuse (some vm) = reuse_valid vm.dom vm

  unfoldable pub ensure_vm : M Domain
  unfolding boot_shared state
  ensure_vm = gets (λ w. w.vm) >>= reuse

  -- `~Context`.
  unfoldable pub end_context : M Unit
  unfolding release_vm
  end_context = catch release_vm λ _. pure tt
