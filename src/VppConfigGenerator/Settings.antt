-- ===== src/VppConfigGenerator/Settings.antt =====
-- resources/libraries/python/VppConfigGenerator.py: the methods that set one value at a fixed path.
use csit.Base.{Option, none, some, List, [], ◌∷◌}
use csit.Base.Text.{Text, codes}
use csit.Base.Result.{Result, ok, raise}
use Prim.Native.String.{String}
use csit.VppConfigGenerator.{Item, text, Config, VppConfigGenerator, Outcome, add_config_item}

-- What `self.add_config_item(self._nodeconfig, ...)` leaves.
abbrev pub kept : VppConfigGenerator → Result Config → Outcome
kept self (raise e) = (self, raise e)
kept self (ok config) = (record self { nodeconfig = config }, ok tt)

abbrev pub stored : VppConfigGenerator → Item → List Text → Outcome
stored self value path = kept self (add_config_item self.nodeconfig value path)

-- An argument, or its default.
abbrev pub given : Option Item → String → Item
given none default = text (codes default)
given (some value) default = value

unfoldable pub add_unix_cli_listen : VppConfigGenerator → Option Item → Outcome
add_unix_cli_listen self value =
    stored self (given value "/run/vpp/cli.sock") (codes "unix" ∷ codes "cli-listen" ∷ [])

unfoldable pub add_unix_gid : VppConfigGenerator → Option Item → Outcome
add_unix_gid self value = stored self (given value "vpp") (codes "unix" ∷ codes "gid" ∷ [])

unfoldable pub add_unix_nodaemon : VppConfigGenerator → Outcome
add_unix_nodaemon self = stored self (text []) (codes "unix" ∷ codes "nodaemon" ∷ [])

unfoldable pub add_unix_coredump : VppConfigGenerator → Outcome
add_unix_coredump self = stored self (text []) (codes "unix" ∷ codes "full-coredump" ∷ [])

unfoldable pub add_unix_exec : VppConfigGenerator → Item → Outcome
add_unix_exec self value = stored self value (codes "unix" ∷ codes "exec" ∷ [])

unfoldable pub add_socksvr : VppConfigGenerator → Option Item → Outcome
add_socksvr self socket =
    stored self (given socket "/run/vpp/api.sock") (codes "socksvr" ∷ codes "socket-name" ∷ [])

unfoldable pub add_api_segment_gid : VppConfigGenerator → Option Item → Outcome
add_api_segment_gid self value =
    stored self (given value "vpp") (codes "api-segment" ∷ codes "gid" ∷ [])

unfoldable pub add_api_segment_global_size : VppConfigGenerator → Item → Outcome
add_api_segment_global_size self value =
    stored self value (codes "api-segment" ∷ codes "global-size" ∷ [])

unfoldable pub add_api_segment_api_size : VppConfigGenerator → Item → Outcome
add_api_segment_api_size self value =
    stored self value (codes "api-segment" ∷ codes "api-size" ∷ [])

unfoldable pub add_buffers_per_numa : VppConfigGenerator → Item → Outcome
add_buffers_per_numa self value =
    stored self value (codes "buffers" ∷ codes "buffers-per-numa" ∷ [])

unfoldable pub add_buffers_default_data_size : VppConfigGenerator → Item → Outcome
add_buffers_default_data_size self value =
    stored self value (codes "buffers" ∷ codes "default data-size" ∷ [])

unfoldable pub add_dpdk_dev_default_rxq : VppConfigGenerator → Item → Outcome
add_dpdk_dev_default_rxq self value =
    stored self value (codes "dpdk" ∷ codes "dev default" ∷ codes "num-rx-queues" ∷ [])

unfoldable pub add_dpdk_dev_default_txq : VppConfigGenerator → Item → Outcome
add_dpdk_dev_default_txq self value =
    stored self value (codes "dpdk" ∷ codes "dev default" ∷ codes "num-tx-queues" ∷ [])

unfoldable pub add_dpdk_dev_default_rxd : VppConfigGenerator → Item → Outcome
add_dpdk_dev_default_rxd self value =
    stored self value (codes "dpdk" ∷ codes "dev default" ∷ codes "num-rx-desc" ∷ [])

unfoldable pub add_dpdk_dev_default_txd : VppConfigGenerator → Item → Outcome
add_dpdk_dev_default_txd self value =
    stored self value (codes "dpdk" ∷ codes "dev default" ∷ codes "num-tx-desc" ∷ [])

unfoldable pub add_dpdk_log_level : VppConfigGenerator → Item → Outcome
add_dpdk_log_level self value = stored self value (codes "dpdk" ∷ codes "log-level" ∷ [])

unfoldable pub add_dpdk_no_pci : VppConfigGenerator → Outcome
add_dpdk_no_pci self = stored self (text []) (codes "dpdk" ∷ codes "no-pci" ∷ [])

unfoldable pub add_cpu_main_core : VppConfigGenerator → Item → Outcome
add_cpu_main_core self value = stored self value (codes "cpu" ∷ codes "main-core" ∷ [])

unfoldable pub add_cpu_corelist_workers : VppConfigGenerator → Item → Outcome
add_cpu_corelist_workers self value =
    stored self value (codes "cpu" ∷ codes "corelist-workers" ∷ [])

unfoldable pub add_main_heap_size : VppConfigGenerator → Item → Outcome
add_main_heap_size self value = stored self value (codes "memory" ∷ codes "main-heap-size" ∷ [])

unfoldable pub add_main_heap_page_size : VppConfigGenerator → Item → Outcome
add_main_heap_page_size self value =
    stored self value (codes "memory" ∷ codes "main-heap-page-size" ∷ [])

unfoldable pub add_api_trace : VppConfigGenerator → Outcome
add_api_trace self = stored self (text []) (codes "api-trace" ∷ codes "on" ∷ [])

unfoldable pub add_ip6_hash_buckets : VppConfigGenerator → Item → Outcome
add_ip6_hash_buckets self value = stored self value (codes "ip6" ∷ codes "hash-buckets" ∷ [])

unfoldable pub add_ip6_heap_size : VppConfigGenerator → Item → Outcome
add_ip6_heap_size self value = stored self value (codes "ip6" ∷ codes "heap-size" ∷ [])

unfoldable pub add_statseg_size : VppConfigGenerator → Item → Outcome
add_statseg_size self value = stored self value (codes "statseg" ∷ codes "size" ∷ [])

unfoldable pub add_statseg_page_size : VppConfigGenerator → Item → Outcome
add_statseg_page_size self value = stored self value (codes "statseg" ∷ codes "page-size" ∷ [])

unfoldable pub add_statseg_per_node_counters : VppConfigGenerator → Item → Outcome
add_statseg_per_node_counters self value =
    stored self value (codes "statseg" ∷ codes "per-node-counters" ∷ [])

unfoldable pub add_dpdk_no_multi_seg : VppConfigGenerator → Outcome
add_dpdk_no_multi_seg self = stored self (text []) (codes "dpdk" ∷ codes "no-multi-seg" ∷ [])

unfoldable pub add_dpdk_no_tx_checksum_offload : VppConfigGenerator → Outcome
add_dpdk_no_tx_checksum_offload self =
    stored self (text []) (codes "dpdk" ∷ codes "no-tx-checksum-offload" ∷ [])

unfoldable pub add_nat_max_translations_per_thread : VppConfigGenerator → Item → Outcome
add_nat_max_translations_per_thread self value =
    stored self value (codes "nat" ∷ codes "max translations per thread" ∷ [])

unfoldable pub add_nsim_poll_main_thread : VppConfigGenerator → Outcome
add_nsim_poll_main_thread self =
    stored self (text []) (codes "nsim" ∷ codes "poll-main-thread" ∷ [])

unfoldable pub add_tcp_congestion_control_algorithm : VppConfigGenerator → Option Item → Outcome
add_tcp_congestion_control_algorithm self value =
    stored self (given value "cubic") (codes "tcp" ∷ codes "cc-algo" ∷ [])

unfoldable pub add_tcp_preallocated_connections : VppConfigGenerator → Item → Outcome
add_tcp_preallocated_connections self value =
    stored self value (codes "tcp" ∷ codes "preallocated-connections" ∷ [])

unfoldable pub add_tcp_preallocated_half_open_connections : VppConfigGenerator → Item → Outcome
add_tcp_preallocated_half_open_connections self value =
    stored self value (codes "tcp" ∷ codes "preallocated-half-open-connections" ∷ [])

unfoldable pub add_session_enable : VppConfigGenerator → Outcome
add_session_enable self = stored self (text []) (codes "session" ∷ codes "enable" ∷ [])

unfoldable pub add_session_event_queues_memfd_segment : VppConfigGenerator → Outcome
add_session_event_queues_memfd_segment self =
    stored self (text []) (codes "session" ∷ codes "evt_qs_memfd_seg" ∷ [])

unfoldable pub add_session_event_queue_length : VppConfigGenerator → Item → Outcome
add_session_event_queue_length self value =
    stored self value (codes "session" ∷ codes "event-queue-length" ∷ [])

unfoldable pub add_session_event_queues_segment_size : VppConfigGenerator → Item → Outcome
add_session_event_queues_segment_size self value =
    stored self value (codes "session" ∷ codes "evt_qs_seg_size" ∷ [])

unfoldable pub add_session_preallocated_sessions : VppConfigGenerator → Item → Outcome
add_session_preallocated_sessions self value =
    stored self value (codes "session" ∷ codes "preallocated-sessions" ∷ [])

unfoldable pub add_session_v4_session_table_buckets : VppConfigGenerator → Item → Outcome
add_session_v4_session_table_buckets self value =
    stored self value (codes "session" ∷ codes "v4-session-table-buckets" ∷ [])

unfoldable pub add_session_v4_session_table_memory : VppConfigGenerator → Item → Outcome
add_session_v4_session_table_memory self value =
    stored self value (codes "session" ∷ codes "v4-session-table-memory" ∷ [])

unfoldable pub add_session_v4_halfopen_table_buckets : VppConfigGenerator → Item → Outcome
add_session_v4_halfopen_table_buckets self value =
    stored self value (codes "session" ∷ codes "v4-halfopen-table-buckets" ∷ [])

unfoldable pub add_session_v4_halfopen_table_memory : VppConfigGenerator → Item → Outcome
add_session_v4_halfopen_table_memory self value =
    stored self value (codes "session" ∷ codes "v4-halfopen-table-memory" ∷ [])

unfoldable pub add_session_local_endpoints_table_buckets : VppConfigGenerator → Item → Outcome
add_session_local_endpoints_table_buckets self value =
    stored self value (codes "session" ∷ codes "local-endpoints-table-buckets" ∷ [])

unfoldable pub add_session_local_endpoints_table_memory : VppConfigGenerator → Item → Outcome
add_session_local_endpoints_table_memory self value =
    stored self value (codes "session" ∷ codes "local-endpoints-table-memory" ∷ [])
