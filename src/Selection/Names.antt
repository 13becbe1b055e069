-- ===== src/Selection/Names.antt =====
-- The names of the output selectors in src/nettest_omni.c: the strings of netperf_output_enum_to_str
-- in the order of the enum netperf_output_name.
use netperf_copilot.Common.{List, [], ◌∷◌, Bytes, codes}

abbrev pub mnemonics : List Bytes
mnemonics =
    codes "!UNKNOWN OUTPUT SELECTOR!"
    ∷ codes "OUTPUT_NONE"
    ∷ codes "SOCKET_TYPE"
    ∷ codes "PROTOCOL"
    ∷ codes "DIRECTION"
    ∷ codes "ELAPSED_TIME"
    ∷ codes "THROUGHPUT"
    ∷ codes "THROUGHPUT_UNITS"
    ∷ codes "LSS_SIZE_REQ"
    ∷ codes "LSS_SIZE"
    ∷ codes "LSS_SIZE_END"
    ∷ codes "LSR_SIZE_REQ"
    ∷ codes "LSR_SIZE"
    ∷ codes "LSR_SIZE_END"
    ∷ codes "RSS_SIZE_REQ"
    ∷ codes "RSS_SIZE"
    ∷ codes "RSS_SIZE_END"
    ∷ codes "RSR_SIZE_REQ"
    ∷ codes "RSR_SIZE"
    ∷ codes "RSR_SIZE_END"
    ∷ codes "LOCAL_SEND_SIZE"
    ∷ codes "LOCAL_RECV_SIZE"
    ∷ codes "REMOTE_SEND_SIZE"
    ∷ codes "REMOTE_RECV_SIZE"
    ∷ codes "REQUEST_SIZE"
    ∷ codes "RESPONSE_SIZE"
    ∷ codes "LOCAL_CPU_UTIL"
    ∷ codes "LOCAL_CPU_PERCENT_USER"
    ∷ codes "LOCAL_CPU_PERCENT_SYSTEM"
    ∷ codes "LOCAL_CPU_PERCENT_IOWAIT"
    ∷ codes "LOCAL_CPU_PERCENT_IRQ"
    ∷ codes "LOCAL_CPU_PERCENT_SWINTR"
    ∷ codes "LOCAL_CPU_METHOD"
    ∷ codes "LOCAL_SD"
    ∷ codes "REMOTE_CPU_UTIL"
    ∷ codes "REMOTE_CPU_PERCENT_USER"
    ∷ codes "REMOTE_CPU_PERCENT_SYSTEM"
    ∷ codes "REMOTE_CPU_PERCENT_IOWAIT"
    ∷ codes "REMOTE_CPU_PERCENT_IRQ"
    ∷ codes "REMOTE_CPU_PERCENT_SWINTR"
    ∷ codes "REMOTE_CPU_METHOD"
    ∷ codes "REMOTE_SD"
    ∷ codes "SD_UNITS"
    ∷ codes "CONFIDENCE_LEVEL"
    ∷ codes "CONFIDENCE_INTERVAL"
    ∷ codes "CONFIDENCE_ITERATION"
    ∷ codes "THROUGHPUT_CONFID"
    ∷ codes "LOCAL_CPU_CONFID"
    ∷ codes "REMOTE_CPU_CONFID"
    ∷ codes "TRANSACTION_RATE"
    ∷ codes "RT_LATENCY"
    ∷ codes "BURST_SIZE"
    ∷ codes "LOCAL_TRANSPORT_RETRANS"
    ∷ codes "REMOTE_TRANSPORT_RETRANS"
    ∷ codes "TRANSPORT_MSS"
    ∷ codes "LOCAL_SEND_THROUGHPUT"
    ∷ codes "LOCAL_RECV_THROUGHPUT"
    ∷ codes "REMOTE_SEND_THROUGHPUT"
    ∷ codes "REMOTE_RECV_THROUGHPUT"
    ∷ codes "LOCAL_CPU_BIND"
    ∷ codes "LOCAL_CPU_COUNT"
    ∷ codes "LOCAL_CPU_PEAK_UTIL"
    ∷ codes "LOCAL_CPU_PEAK_ID"
    ∷ codes "LOCAL_CPU_ACTIVE_UTIL"
    ∷ codes "LOCAL_CPU_ACTIVE_COUNT"
    ∷ codes "LOCAL_CPU_MODEL"
    ∷ codes "LOCAL_CPU_FREQUENCY"
    ∷ codes "REMOTE_CPU_BIND"
    ∷ codes "REMOTE_CPU_COUNT"
    ∷ codes "REMOTE_CPU_PEAK_UTIL"
    ∷ codes "REMOTE_CPU_PEAK_ID"
    ∷ codes "REMOTE_CPU_ACTIVE_UTIL"
    ∷ codes "REMOTE_CPU_ACTIVE_COUNT"
    ∷ codes "REMOTE_CPU_MODEL"
    ∷ codes "REMOTE_CPU_FREQUENCY"
    ∷ codes "SOURCE_PORT"
    ∷ codes "SOURCE_ADDR"
    ∷ codes "SOURCE_FAMILY"
    ∷ codes "DEST_PORT"
    ∷ codes "DEST_ADDR"
    ∷ codes "DEST_FAMILY"
    ∷ codes "LOCAL_SEND_CALLS"
    ∷ codes "LOCAL_RECV_CALLS"
    ∷ codes "LOCAL_BYTES_PER_RECV"
    ∷ codes "LOCAL_BYTES_PER_SEND"
    ∷ codes "LOCAL_BYTES_SENT"
    ∷ codes "LOCAL_BYTES_RECVD"
    ∷ codes "LOCAL_BYTES_XFERD"
    ∷ codes "LOCAL_SEND_OFFSET"
    ∷ codes "LOCAL_RECV_OFFSET"
    ∷ codes "LOCAL_SEND_ALIGN"
    ∷ codes "LOCAL_RECV_ALIGN"
    ∷ codes "LOCAL_SEND_WIDTH"
    ∷ codes "LOCAL_RECV_WIDTH"
    ∷ codes "LOCAL_SEND_DIRTY_COUNT"
    ∷ codes "LOCAL_RECV_DIRTY_COUNT"
    ∷ codes "LOCAL_RECV_CLEAN_COUNT"
    ∷ codes "LOCAL_NODELAY"
    ∷ codes "LOCAL_CORK"
    ∷ codes "REMOTE_SEND_CALLS"
    ∷ codes "REMOTE_RECV_CALLS"
    ∷ codes "REMOTE_BYTES_PER_RECV"
    ∷ codes "REMOTE_BYTES_PER_SEND"
    ∷ codes "REMOTE_BYTES_SENT"
    ∷ codes "REMOTE_BYTES_RECVD"
    ∷ codes "REMOTE_BYTES_XFERD"
    ∷ codes "REMOTE_SEND_OFFSET"
    ∷ codes "REMOTE_RECV_OFFSET"
    ∷ codes "REMOTE_SEND_ALIGN"
    ∷ codes "REMOTE_RECV_ALIGN"
    ∷ codes "REMOTE_SEND_WIDTH"
    ∷ codes "REMOTE_RECV_WIDTH"
    ∷ codes "REMOTE_SEND_DIRTY_COUNT"
    ∷ codes "REMOTE_RECV_DIRTY_COUNT"
    ∷ codes "REMOTE_RECV_CLEAN_COUNT"
    ∷ codes "REMOTE_NODELAY"
    ∷ codes "REMOTE_CORK"
    ∷ codes "LOCAL_SYSNAME"
    ∷ codes "LOCAL_SYSTEM_MODEL"
    ∷ codes "LOCAL_RELEASE"
    ∷ codes "LOCAL_VERSION"
    ∷ codes "LOCAL_MACHINE"
    ∷ codes "REMOTE_SYSNAME"
    ∷ codes "REMOTE_SYSTEM_MODEL"
    ∷ codes "REMOTE_RELEASE"
    ∷ codes "REMOTE_VERSION"
    ∷ codes "REMOTE_MACHINE"
    ∷ codes "LOCAL_INTERFACE_NAME"
    ∷ codes "LOCAL_INTERFACE_VENDOR"
    ∷ codes "LOCAL_INTERFACE_DEVICE"
    ∷ codes "LOCAL_INTERFACE_SUBVENDOR"
    ∷ codes "LOCAL_INTERFACE_SUBDEVICE"
    ∷ codes "LOCAL_DRIVER_NAME"
    ∷ codes "LOCAL_DRIVER_VERSION"
    ∷ codes "LOCAL_DRIVER_FIRMWARE"
    ∷ codes "LOCAL_DRIVER_BUS"
    ∷ codes "LOCAL_INTERFACE_SLOT"
    ∷ codes "REMOTE_INTERFACE_NAME"
    ∷ codes "REMOTE_INTERFACE_VENDOR"
    ∷ codes "REMOTE_INTERFACE_DEVICE"
    ∷ codes "REMOTE_INTERFACE_SUBVENDOR"
    ∷ codes "REMOTE_INTERFACE_SUBDEVICE"
    ∷ codes "REMOTE_DRIVER_NAME"
    ∷ codes "REMOTE_DRIVER_VERSION"
    ∷ codes "REMOTE_DRIVER_FIRMWARE"
    ∷ codes "REMOTE_DRIVER_BUS"
    ∷ codes "REMOTE_INTERFACE_SLOT"
    ∷ codes "LOCAL_INTERVAL_USECS"
    ∷ codes "LOCAL_INTERVAL_BURST"
    ∷ codes "REMOTE_INTERVAL_USECS"
    ∷ codes "REMOTE_INTERVAL_BURST"
    ∷ codes "LOCAL_SECURITY_TYPE_ID"
    ∷ codes "LOCAL_SECURITY_TYPE"
    ∷ codes "LOCAL_SECURITY_ENABLED_NUM"
    ∷ codes "LOCAL_SECURITY_ENABLED"
    ∷ codes "LOCAL_SECURITY_SPECIFIC"
    ∷ codes "REMOTE_SECURITY_TYPE_ID"
    ∷ codes "REMOTE_SECURITY_TYPE"
    ∷ codes "REMOTE_SECURITY_ENABLED_NUM"
    ∷ codes "REMOTE_SECURITY_ENABLED"
    ∷ codes "REMOTE_SECURITY_SPECIFIC"
    ∷ codes "RESULT_BRAND"
    ∷ codes "UUID"
    ∷ codes "MIN_LATENCY"
    ∷ codes "MAX_LATENCY"
    ∷ codes "P50_LATENCY"
    ∷ codes "P90_LATENCY"
    ∷ codes "P99_LATENCY"
    ∷ codes "MEAN_LATENCY"
    ∷ codes "STDDEV_LATENCY"
    ∷ codes "LOCAL_SOCKET_PRIO"
    ∷ codes "REMOTE_SOCKET_PRIO"
    ∷ codes "LOCAL_SOCKET_TOS"
    ∷ codes "REMOTE_SOCKET_TOS"
    ∷ codes "LOCAL_CONG_CONTROL"
    ∷ codes "REMOTE_CONG_CONTROL"
    ∷ codes "LOCAL_FILL_FILE"
    ∷ codes "REMOTE_FILL_FILE"
    ∷ codes "COMMAND_LINE"
    ∷ codes "OUTPUT_END"
    ∷ []
