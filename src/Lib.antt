-- ===== src/Lib.antt =====
-- Verification of kvm-validation-suite: models of the host checks (platcheck/), the VM test harness
-- (vmtest/), the distributed test runner (dtest/), the character device (kmod/) and the references of the
-- GPU tests (cudatest/), with theorems about them. The programs are separate: they share no state. dtest
-- runs the others as commands on its agents.
--
-- Base: the shared helpers. Base.Bytes: std::string as the list of its bytes. Base.Ascii: the character
-- classes of the C locale, and decimals. Base.Int: signed integers. Base.Numbers: std::stoi, std::stol
-- and std::atoi. Base.Ranges: searches and sums over the numbers below a bound, for the loops over task
-- and agent indices.
--
-- Dtest (dtest/): a controller reads a job file (Dtest.Json and Dtest.Jobs: dtest/src/jobs.cpp), runs its
-- tasks on the agents (Dtest.Scheduler: dtest/src/scheduler.cpp, with labels_satisfy of jobs.cpp in
-- Dtest.Labels), and reports on the run (Dtest.Summary: the questions of RunSummary; Dtest.Report:
-- dtest/src/report.cpp). A worker runs an attempt through Dtest.Executor
-- (dtest/src/grpc_executor.cpp), which calls RunTask of an agent (Dtest.Agent: dtest/src/agent_service.cpp,
-- with the messages of dtest/proto/dtest.proto in Dtest.Rpc). An agent runs what its policy allows
-- (Dtest.Policy: dtest/src/policy.cpp), as a process (Dtest.Process: dtest/src/process.cpp).
-- Executor.EndToEnd joins the three. Dtest.Programs: dtest/src/agent_main.cpp
-- (AgentMain) and dtest/src/ctl_main.cpp (CtlMain).
--   * Scheduler: Run is the state under mu_ (st_, alive_, dead_, remaining_) and the place of each
--     worker thread. A thread gives the lock up in cv_.wait, for exec_.run and at its end; an Event takes
--     it from one of these places to the next: resumes (the thread gets the lock first), wakes (after
--     notify_all or spuriously) and returns (exec_.run gives a result). fire is one event, Reach what
--     any sequence of events gives. loop_head, complete, settle, retire, pick, finish and
--     resolve_unschedulable are the pieces of Run::worker and its helpers. remaining_, a size_t, wraps.
--   * Scheduler.Cases, Frames, Settling: what a step changes. Tasks, Verdicts: each task. Accounting: the
--     counter. Ownership: which thread runs what. Parked, Served, Progress, SingleSlot: waiting threads.
--     Threads: slots. Costs, Termination: the attempts. Stranded, LeftBehind: tasks whose last agent is
--     gone. Results: the summary. There is no fuel: a run is any finite sequence of events.
--   * Jobs, with Jobs.Values: Checked is a value or the message of the refusal. The JSON parser is a
--     parameter; Json are the values it gives. Agent.Slots: the atomic counter of the calls of an agent,
--     as steps in any order. Agent: the run of a process is a parameter, which Executor.EndToEnd fills.
--     Agent.Service: the options of the service, GetInfo, and what RunTask makes of a request and of an
--     output. Executor.Connect: connect; over is a network that delivers the call or fails. Report: none where the code would take the last of no attempts.
--   * Process: Host is what the system calls give, Parent the variables of the loops. watch is the loop
--     up to the exit or the deadline, wait_grace the one after SIGTERM; both take fuel. A list of reads
--     without an end stands for reads that go on for ever, on which the run gives none. Total: where the
--     clock goes on and the reads of every round end, there is enough fuel. Launch: run_process from the pipes to the output, with the calls that it makes. Child:
--     the descriptors of the child. Cases: the ways a run can go. Capture, Output: what is read. Timing:
--     the deadline. Calls: the pipes and the child.
--   * Programs: Command is an exit code or what the program goes on with; CtlMain.Controller is the files, the
--     network and the run of the scheduler, a parameter; CtlMain.Status takes a run of Dtest.Scheduler for it.
--     What is printed is left out.
--
-- Platcheck (platcheck/): Host is the file system, a parameter. Parse: the readers of /proc and of the
-- command line. Iommu: the groups, with Iommu.Devices and Iommu.Sorted. Checks, with Gpu and
-- Confidential, and Checks.All: Checker. Render: the output, the exit code and main. none is the exception of std::stoi on a group number above int.
-- A number is read the way libstdc++ does: up to the first character that is not a digit.
--
-- Vmtest (vmtest/): Util: base64 and escaping (vmtest/src/util.cpp). Config: the command line
-- (vmtest/src/config.cpp). Junit: the report (vmtest/src/junit.cpp). Runner: the filter, the run of the
-- tests on a context, and the exit code (vmtest/src/main.cpp and the end of vmtest/src/tests.cpp).
--   * Machine: Env is what libvirt, the guest agent, qemu-img, the file system and the clock give, each
--     for all the calls so far; a command may leave the file it was to make though it fails. M is code that may throw, on World, the members of Context with the calls.
--     wait_loop takes fuel; Machine.Waiting: more fuel than milliseconds to wait is enough. Machine.Safe:
--     what such code keeps true.
--   * Virt: vmtest/src/virt.cpp. GuestExec: vmtest/src/guest_exec.cpp. Context: class Context of
--     vmtest/src/tests.cpp. Cases: its test cases and build_tests. Overlays, Guests, Shared, Kept, Soak
--     and Run follow the overlay files through them.
--
-- Cudatest (cudatest/): the host's data, references and comparison of cudatest/src/reference.cpp. Words
-- wrap at 2^64 and 2^32. Random: the generator. Sums: the sum and the histogram. Compare: allclose, where
-- float and double are types with the operations that the code uses, a parameter.
--
-- Kmod (kmod/): Valdev: kmod/valdev.c. State is valdev_state without its mutex, which each operation
-- holds for its part on the state; the buffer is a function of the index. u64 fields wrap at 2^64. What
-- user memory gives or takes is an argument of a call.
--
-- Numbers that the sources keep in int and that count elements of a list (tasks, checks, tests) have no
-- bound here. Durations are left out, or what is printed for them is a parameter.
--
-- Not modelled: sockets, gRPC, libvirt and the JSON parser, which are parameters; the kernels and the CUDA
-- wrappers (cudatest/src/kernels.cu), and vector_add, gemm, transpose and the random floats of
-- reference.cpp; the move operations of Domain and the destructor of Connection in virt.cpp; the start and
-- the stop of the server in agent_main.cpp; the registration of the kernel module; log lines and usage
-- texts; the tests, the build files and the scripts.
pub mod Base
pub mod Cudatest
pub mod Dtest
pub mod Kmod
pub mod Platcheck
pub mod Vmtest
