-- ===== src/Vmtest/Virt.antt =====
-- vmtest/src/virt.cpp: the wrappers of libvirt. The handler of its errors is left out.
pub mod Quiet
use computing_test_plat.Base.{
  ℕ, List, [], ◌∷◌, ◌++◌, Option, none, some, Bool, true, false, if◌then◌else◌, ◌==◌, Text, codes,
}
use computing_test_plat.Base.Ascii.{decimal}
use computing_test_plat.Vmtest.Util.{xml_escape}
use computing_test_plat.Vmtest.Machine.{
  Exception, failure, Domain, Call, opened, created, asked_state, suspended, resumed, shut_down,
  destroyed, asked_info, asked_agent, freed, StateAnswer, state_number, state_error, Env, World, M,
  ◌>>=◌, ◌>>◌, pure, throw, modify, gets, ask, tell,
}

pub data DomState : Type 0 where
  no_state running blocked paused shutting_down shut_off crashed pm_suspended gone : DomState

unfoldable pub state_text : DomState → Text
state_text no_state = codes "nostate"
state_text running = codes "running"
state_text blocked = codes "blocked"
state_text paused = codes "paused"
state_text shutting_down = codes "shutting-down"
state_text shut_off = codes "shut-off"
state_text crashed = codes "crashed"
state_text pm_suspended = codes "pm-suspended"
state_text gone = codes "gone"

-- `a == b` on `DomState`.
abbrev pub same_state : DomState → DomState → Bool
same_state no_state no_state = true
same_state running running = true
same_state blocked blocked = true
same_state paused paused = true
same_state shutting_down shutting_down = true
same_state shut_off shut_off = true
same_state crashed crashed = true
same_state pm_suspended pm_suspended = true
same_state gone gone = true
same_state _ _ = false

-- The numbers of libvirt's `virDomainState`.
unfoldable pub state_of_number : ℕ → DomState
state_of_number n =
    if n == 1
    then running
    else if n == 2
    then blocked
    else if n == 3
    then paused
    else if n == 4
    then shutting_down
    else if n == 5
    then shut_off
    else if n == 6
    then crashed
    else if n == 7
    then pm_suspended
    else no_state

unfoldable pub build_domain_xml : Text → ℕ → ℕ → Text → Text → Text
unfolding xml_escape decimal
build_domain_xml name vcpus mem_mib disk_path disk_format =
    codes "<domain type='kvm'>\n  <name>"
    ++ (xml_escape name
        ++ (codes "</name>\n  <memory unit='MiB'>"
            ++ (decimal mem_mib
                ++ (codes "</memory>\n  <vcpu>"
                    ++ (decimal vcpus
                        ++ (codes
                              "</vcpu>\n  <os>\n    <type arch='x86_64' machine='q35'>hvm</type>\n    <boot dev='hd'/>\n  </os>\n  <features><acpi/><apic/></features>\n  <cpu mode='host-passthrough'/>\n  <clock offset='utc'/>\n  <devices>\n    <disk type='file' device='disk'>\n      <driver name='qemu' type='"
                            ++ (xml_escape disk_format
                                ++ (codes "'/>\n      <source file='"
                                    ++ (xml_escape disk_path
                                        ++ codes
                                            "'/>\n      <target dev='vda' bus='virtio'/>\n    </disk>\n    <serial type='pty'><target port='0'/></serial>\n    <console type='pty'><target type='serial' port='0'/></console>\n    <channel type='unix'>\n      <target type='virtio' name='org.qemu.guest_agent.0'/>\n    </channel>\n    <memballoon model='virtio'/>\n  </devices>\n</domain>\n")))))))))

-- What the methods of a domain throw.
unfoldable pub virt_error : {A : Type 0} → Env → Text → M A
virt_error env what = gets (λ w. env.error w.calls) >>= λ e. throw (failure (what ++ e))

-- The connection of the context, opened at its first use.
unfoldable pub connection : Env → Text → M Unit
connection env uri = gets (λ w. w.connected) >>= λ connected.
    if connected
    then pure tt
    else (ask (opened uri) env.opens >>= λ open_now.
        if open_now
        then modify (λ w. record w { connected = true })
        else virt_error env (codes "cannot connect to '" ++ (uri ++ codes "': ")))

module _ (env : Env) where
  abbrev pub made : Text → Option ℕ → M Domain
  made name none = virt_error env (codes "failed to start domain '" ++ (name ++ codes "': "))
  made name (some h) = pure (record { dom = some h; name = name })

  unfoldable pub create_transient : Text → Text → M Domain
  create_transient xml name = ask (created xml) env.creates >>= made name

  abbrev pub told : StateAnswer → M DomState
  told (state_number n) = pure (state_of_number n)
  told (state_error true) = pure gone
  told (state_error false) = virt_error env (codes "virDomainGetState failed: ")

  abbrev pub state_of : Option ℕ → M DomState
  state_of none = pure gone
  state_of (some h) = ask (asked_state h) env.state >>= told

  unfoldable pub state : Domain → M DomState
  unfolding state_of_number
  state d = state_of d.dom

  abbrev pub checked : Call → Text → M Unit
  checked c what = ask c env.done >>= λ fine. if fine then pure tt else virt_error env what

  unfoldable pub suspend : Domain → M Unit
  suspend d = checked (suspended d.dom) (codes "suspend failed: ")

  unfoldable pub resume : Domain → M Unit
  resume d = checked (resumed d.dom) (codes "resume failed: ")

  unfoldable pub shutdown : Domain → M Unit
  shutdown d = checked (shut_down d.dom) (codes "shutdown failed: ")

  unfoldable pub destroy : Domain → M Unit
  destroy d = checked (destroyed d.dom) (codes "destroy failed: ")

  abbrev pub got_info : Option (ℕ × ℕ) → M (ℕ × ℕ)
  got_info none = virt_error env (codes "virDomainGetInfo failed: ")
  got_info (some i) = pure i

  -- The virtual CPUs and the memory in KiB.
  unfoldable pub info : Domain → M (ℕ × ℕ)
  info d = ask (asked_info d.dom) env.info >>= got_info

  abbrev pub got_reply : Option Text → M Text
  got_reply none = virt_error env (codes "guest agent command failed: ")
  got_reply (some r) = pure r

  unfoldable pub agent_command : Domain → Text → ℕ → M Text
  agent_command d json timeout_s = ask (asked_agent d.dom json timeout_s) env.reply >>= got_reply

-- `~Domain`.
abbrev pub release_handle : Domain → M Unit
release_handle d = elim d.dom [ none ↦ pure tt | some h ↦ tell (freed h) ]
