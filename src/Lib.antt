-- ===== src/Lib.antt =====
-- Alpha Smart Router: a library of the core of a real-time smart router in C++. It has a memory
-- layer, a ring buffer between two threads and a pool of packets over it; a routing layer; an
-- observer that counts decisions; a loader of the configuration; and helpers for real-time threads.
-- Of the routing layer, the service registry keeps the points of presence of each service, the
-- ingress selector picks one of them, by itself or by asking an oracle for the one that serves an
-- anycast service, the path policies pick a path by its metrics, the policy binding gives the
-- workers the policy that the control plane published last, and the QoS policy scores paths, on
-- whose scores the failover policy decides.
--
-- The parts, and the files that model them:
-- - Base: native numbers, lists, bits and texts, and `std::unordered_map` as an association list.
-- - Mem/Spsc: `SpscQueue` of include/alpha/mem/spsc_queue.hpp. A record holds `head_`, `tail_`,
--   `buf_`, `capacity_` and `mask_`; `push`, `push_move` (the overload for an rvalue), `pop`,
--   `empty`, `full`, `approx_size`, `with_capacity` and `move_from` are the members of these names.
--   `buf` has the objects that live in the storage, which is none where the element type is not
--   trivially copyable.
--   Mem/Fifo is the queue that it promises. Mem/Spsc/Threads has the producer and the consumer as
--   two programs that take turns at each access of shared memory.
-- - Bench: `run_one` of benchmarks/src/spsc_bench.cpp, a producer and a consumer that try again until
--   the queue takes or gives an element. There a turn is a whole call of the queue; in
--   Bench/Accesses it is one access of the memory that they share. Bench/Report is what `run_one`
--   computes of a run.
-- - Mem/PacketPool: `PacketPool` of include/alpha/mem/packet_pool.hpp and
--   src/alpha/mem/packet_pool.cpp, over the queue; Mem/PacketPool/Threads has the thread that
--   acquires and the one that releases.
-- - Routing/Pop: the data of include/alpha/routing/pop.hpp.
-- - Routing/Validation and Routing/Registry: `ServiceRegistry` of
--   include/alpha/routing/service_registry.hpp and src/alpha/routing/service_registry.cpp. The maps
--   are on a heap that is explicit, so that a `shared_ptr` to a map is an index, and a reader that
--   holds one can be followed. `inet_pton` of the C library is a parameter.
--   Routing/Registry/Overtaken has a mutation that other calls overtake, Routing/Registry/Writers any
--   number of writers that take turns at each access. Routing/Registry/Directory is
--   the directory that the registry promises, and Routing/Registry/Requests all requests of a caller.
-- - Routing/BgpOracle: `BgpOracle` and `SimulatedBgpOracle` of
--   include/alpha/routing/bgp_oracle.hpp, include/alpha/routing/bgp_oracle_sim.hpp and
--   src/alpha/routing/bgp_oracle_sim.cpp.
-- - Routing/IngressSelector: `IngressSelector` of include/alpha/routing/ingress_selector.hpp and
--   src/alpha/routing/ingress_selector.cpp; `choose_ingress` and `choose_ingress_for` are the two
--   overloads of `chooseIngress`.
-- - Routing/PathSelection: the slots of metrics and the three policies of
--   include/alpha/routing/path_selection.hpp and src/alpha/routing/path_selection.cpp. A policy's
--   `choose` takes its counter and returns the new one. Routing/PathSelection/Seqlock has the
--   writer and a reader of a slot as two programs that take turns.
-- - Routing/PolicyBinding: `PolicyBinding` of include/alpha/routing/policy_binding.hpp and
--   src/alpha/routing/policy_binding.cpp, at the three policies, whose objects are in a memory by
--   address; `select_static` is the `select_path` of include/alpha/routing/path_selection.hpp.
--   Routing/PolicyBinding/Threads has the writer and a worker as two programs that take turns.
-- - Routing/QosPolicy: `QoSPolicy` of include/alpha/routing/qos_policy.hpp and
--   src/alpha/routing/qos_policy.cpp.
-- - Routing/FailoverPolicy: `FailoverPolicy` of include/alpha/routing/failover_policy.hpp and
--   src/alpha/routing/failover_policy.cpp.
-- - Routing/Doubles: the arithmetic of `double` that the last two use, as an interface. Where a
--   theorem needs an order of doubles, it takes that of all doubles but NaN.
-- - Config/Constants and Config/Loader: the defaults of include/alpha/config/constants.hpp, and
--   `Loader` of include/alpha/config/config_loader.hpp and src/alpha/config/config_loader.cpp.
-- - Os/Rt: `bind_and_prioritize` of include/alpha/os/rt.hpp, src/alpha/os/rt_linux.cpp and
--   src/alpha/os/rt_qnx.cpp; the calls of the thread library are a parameter.
-- - Obs/Observer: `SimpleObserver` of include/alpha/obs/observability.hpp and
--   src/alpha/obs/observability.cpp, without its printing.
-- - Apps/PingTool: apps/ping_tool/src/main.cpp, as what it prints and its sleeps; `std::stoi` and the
--   random numbers are parameters.
-- The modules named Tests run the operations at small inputs.
--
-- Conventions: undefined behaviour, failed assertions and aborts are `none`. `size_t` and the
-- counters have 64 bits and wrap, sequence numbers, path ids and handles have 32. A ring has at
-- most 2^63 cells, which is all that a power of two in `size_t` allows. The cyclic policies are
-- taken at up to 2^31 candidates, where a place plus an offset does not wrap. Loops are structural
-- recursion; there is no fuel but the four attempts of a reader of a slot or of a binding. A text
-- is the list of its bytes. The accesses of two threads are interleaved one by one. For the queue the
-- release stores of the indices publish what was written before them, and so does the store of the
-- map for the registry. For a slot and for a binding the source does not enforce that the accesses of
-- a thread take effect in the order of its program: `ordered` of their step relations tells whether
-- they do, and if not, more steps are allowed.
--
-- Not modelled: the router application, which prints a fixed text; the clock and the printing
-- of the benchmark; the placeholders of include/alpha/mem/mem_primitives.hpp, which do
-- nothing; policies of a binding other than the three, and the end of a policy object's life;
-- two writers of one slot; the order in which `std::unordered_map` is iterated, for which any
-- order stands; the templates that the registry declares for types like `Pop`, which have no
-- body.
pub mod Apps
pub mod Base
pub mod Bench
pub mod Mem
pub mod Routing
pub mod Obs
pub mod Os
pub mod Config
