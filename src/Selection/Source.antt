-- ===== src/Selection/Source.antt =====
-- netperf_output_source of src/nettest_omni.c, as print_omni_init_list fills it: the header lines of
-- each output selector and the group of information that it needs, in the order of the enum.
use netperf_copilot.Common.{ℕ, List, [], ◌∷◌, Bytes, codes}
use Prim.Native.String.{String}

pub record OutputElt : Type 0 where
  pub line : List Bytes
  pub output_group : ℕ

abbrev pub elt : String → String → String → String → ℕ → OutputElt
elt a b c d group = record {
  line = codes a ∷ codes b ∷ codes c ∷ codes d ∷ [];
  output_group = group;
}

abbrev pub netperf_output_source : List OutputElt
netperf_output_source =
    elt "" "" "" "" 0
    ∷ elt " " "" "" "" 0
    ∷ elt "Socket" "Type" "" "" 0
    ∷ elt "Protocol" "" "" "" 0
    ∷ elt "Direction" "" "" "" 0
    ∷ elt "Elapsed" "Time" "(sec)" "" 0
    ∷ elt "Throughput" "" "" "" 0
    ∷ elt "Throughput" "Units" "" "" 0
    ∷ elt "Local" "Send Socket" "Size" "Requested" 0
    ∷ elt "Local" "Send Socket" "Size" "Initial" 0
    ∷ elt "Local" "Send Socket" "Size" "Final" 0
    ∷ elt "Local" "Recv Socket" "Size" "Requested" 0
    ∷ elt "Local" "Recv Socket" "Size" "Initial" 0
    ∷ elt "Local" "Recv Socket" "Size" "Final" 0
    ∷ elt "Remote" "Send Socket" "Size" "Requested" 0
    ∷ elt "Remote" "Send Socket" "Size" "Initial" 0
    ∷ elt "Remote" "Send Socket" "Size" "Final" 0
    ∷ elt "Remote" "Recv Socket" "Size" "Requested" 0
    ∷ elt "Remote" "Recv Socket" "Size" "Initial" 0
    ∷ elt "Remote" "Recv Socket" "Size" "Final" 0
    ∷ elt "Local" "Send" "Size" "" 0
    ∷ elt "Local" "Recv" "Size" "" 0
    ∷ elt "Remote" "Send" "Size" "" 0
    ∷ elt "Remote" "Recv" "Size" "" 0
    ∷ elt "Request" "Size" "Bytes" "" 0
    ∷ elt "Response" "Size" "Bytes" "" 0
    ∷ elt "Local" "CPU" "Util" "%" 0
    ∷ elt "Local" "CPU" "User" "%" 0
    ∷ elt "Local" "CPU" "System" "%" 0
    ∷ elt "Local" "CPU" "I/O" "%" 0
    ∷ elt "Local" "CPU" "IRQ" "%" 0
    ∷ elt "Local" "CPU" "swintr" "%" 0
    ∷ elt "Local" "CPU" "Util" "Method" 0
    ∷ elt "Local" "Service" "Demand" "" 0
    ∷ elt "Remote" "CPU" "Util" "%" 0
    ∷ elt "Remote" "CPU" "User" "%" 0
    ∷ elt "Remote" "CPU" "System" "%" 0
    ∷ elt "Remote" "CPU" "I/O" "%" 0
    ∷ elt "Remote" "CPU" "IRQ" "%" 0
    ∷ elt "Remote" "CPU" "swintr" "%" 0
    ∷ elt "Remote" "CPU" "Util" "Method" 0
    ∷ elt "Remote" "Service" "Demand" "" 0
    ∷ elt "Service" "Demand" "Units" "" 0
    ∷ elt "Confidence" "Level" "Percent" "" 0
    ∷ elt "Confidence" "Width" "Target" "" 0
    ∷ elt "Confidence" "Iterations" "Run" "" 0
    ∷ elt "Throughput" "Confidence" "Width (%)" "" 0
    ∷ elt "Local" "CPU" "Confidence" "Width (%)" 0
    ∷ elt "Remote" "CPU" "Confidence" "Width (%)" 0
    ∷ elt "Transaction" "Rate" "Tran/s" "" 0
    ∷ elt "Round" "Trip" "Latency" "usec/tran" 0
    ∷ elt "Initial" "Burst" "Requests" "" 0
    ∷ elt "Local" "Transport" "Retransmissions" "" 0
    ∷ elt "Remote" "Transport" "Retransmissions" "" 0
    ∷ elt "Transport" "MSS" "bytes" "" 0
    ∷ elt "Local" "Send" "Throughput" "" 0
    ∷ elt "Local" "Recv" "Throughput" "" 0
    ∷ elt "Remote" "Send" "Throughput" "" 0
    ∷ elt "Remote" "Recv" "Throughput" "" 0
    ∷ elt "Local" "CPU" "Bind" "" 0
    ∷ elt "Local" "CPU" "Count" "" 0
    ∷ elt "Local" "Peak" "Per CPU" "Util %" 0
    ∷ elt "Local" "Peak" "Per CPU" "ID" 0
    ∷ elt "Local" "Active" "CPU" "Util %" 0
    ∷ elt "Local" "Active" "CPU" "Count" 0
    ∷ elt "Local" "CPU" "Model" "" 0
    ∷ elt "Local" "CPU" "Frequency" "MHz" 0
    ∷ elt "Remote" "CPU" "Bind" "" 0
    ∷ elt "Remote" "CPU" "Count" "" 0
    ∷ elt "Remote" "Peak" "Per CPU" "Util %" 0
    ∷ elt "Remote" "Peak" "Per CPU" "ID" 0
    ∷ elt "Remote" "Active" "CPU" "Util %" 0
    ∷ elt "Remote" "Active" "CPU" "Count" 0
    ∷ elt "Remote" "CPU" "Model" "" 0
    ∷ elt "Remote" "CPU" "Frequency" "MHz" 0
    ∷ elt "Source" "Port" "" "" 0
    ∷ elt "Source" "Address" "" "" 0
    ∷ elt "Source" "Family" "" "" 0
    ∷ elt "Destination" "Port" "" "" 0
    ∷ elt "Destination" "Address" "" "" 0
    ∷ elt "Destination" "Family" "" "" 0
    ∷ elt "Local" "Send" "Calls" "" 0
    ∷ elt "Local" "Recv" "Calls" "" 0
    ∷ elt "Local" "Bytes" "Per" "Recv" 0
    ∷ elt "Local" "Bytes" "Per" "Send" 0
    ∷ elt "Local" "Bytes" "Sent" "" 0
    ∷ elt "Local" "Bytes" "Received" "" 0
    ∷ elt "Local" "Bytes" "Xferred" "" 0
    ∷ elt "Local" "Send" "Offset" "" 0
    ∷ elt "Local" "Recv" "Offset" "" 0
    ∷ elt "Local" "Send" "Alignment" "" 0
    ∷ elt "Local" "Recv" "Alignment" "" 0
    ∷ elt "Local" "Send" "Width" "" 0
    ∷ elt "Local" "Recv" "Width" "" 0
    ∷ elt "Local" "Send" "Dirty" "Count" 0
    ∷ elt "Local" "Recv" "Dirty" "Count" 0
    ∷ elt "Local" "Recv" "Clean" "Count" 0
    ∷ elt "Local" "NODELAY" "" "" 0
    ∷ elt "Local" "Cork" "" "" 0
    ∷ elt "Remote" "Send" "Calls" "" 0
    ∷ elt "Remote" "Recv" "Calls" "" 0
    ∷ elt "Remote" "Bytes" "Per" "Recv" 0
    ∷ elt "Remote" "Bytes" "Per" "Send" 0
    ∷ elt "Remote" "Bytes" "Sent" "" 0
    ∷ elt "Remote" "Bytes" "Received" "" 0
    ∷ elt "Remote" "Bytes" "Xferred" "" 0
    ∷ elt "Remote" "Send" "Offset" "" 0
    ∷ elt "Remote" "Recv" "Offset" "" 0
    ∷ elt "Remote" "Send" "Alignment" "" 0
    ∷ elt "Remote" "Recv" "Alignment" "" 0
    ∷ elt "Remote" "Send" "Width" "" 0
    ∷ elt "Remote" "Recv" "Width" "" 0
    ∷ elt "Remote" "Send" "Dirty" "Count" 0
    ∷ elt "Remote" "Recv" "Dirty" "Count" 0
    ∷ elt "Remote" "Recv" "Clean" "Count" 0
    ∷ elt "Remote" "NODELAY" "" "" 0
    ∷ elt "Remote" "Cork" "" "" 0
    ∷ elt "Local" "Sysname" "" "" 0
    ∷ elt "Local" "System" "Model" "" 0
    ∷ elt "Local" "Release" "" "" 0
    ∷ elt "Local" "Version" "" "" 0
    ∷ elt "Local" "Machine" "" "" 0
    ∷ elt "Remote" "Sysname" "" "" 0
    ∷ elt "Remote" "System" "Model" "" 0
    ∷ elt "Remote" "Release" "" "" 0
    ∷ elt "Remote" "Version" "" "" 0
    ∷ elt "Remote" "Machine" "" "" 0
    ∷ elt "Local" "Interface" "Name" "" 65536
    ∷ elt "Local" "Interface" "Vendor" "" 262144
    ∷ elt "Local" "Interface" "Device" "" 262144
    ∷ elt "Local" "Interface" "Subvendor" "" 262144
    ∷ elt "Local" "Interface" "Subdevice" "" 262144
    ∷ elt "Local" "Driver" "Name" "" 524288
    ∷ elt "Local" "Driver" "Version" "" 524288
    ∷ elt "Local" "Driver" "Firmware" "" 524288
    ∷ elt "Local" "Driver" "Bus" "" 524288
    ∷ elt "Local" "Interface" "Slot" "" 131072
    ∷ elt "Remote" "Interface" "Name" "" 1
    ∷ elt "Remote" "Interface" "Vendor" "" 4
    ∷ elt "Remote" "Interface" "Device" "" 4
    ∷ elt "Remote" "Interface" "Subvendor" "" 4
    ∷ elt "Remote" "Interface" "Subdevice" "" 4
    ∷ elt "Remote" "Driver" "Name" "" 8
    ∷ elt "Remote" "Driver" "Version" "" 8
    ∷ elt "Remote" "Driver" "Firmware" "" 8
    ∷ elt "Remote" "Driver" "Bus" "" 8
    ∷ elt "Remote" "Interface" "Slot" "" 2
    ∷ elt "Local" "Interval" "Usecs" "" 0
    ∷ elt "Local" "Interval" "Burst" "" 0
    ∷ elt "Remote" "Interval" "Usecs" "" 0
    ∷ elt "Remote" "Interval" "Burst" "" 0
    ∷ elt "Local" "OS" "Security" "Type ID" 0
    ∷ elt "Local" "OS" "Security" "Type" 0
    ∷ elt "Local" "OS" "Security" "Enabled Num" 0
    ∷ elt "Local" "OS" "Security" "Enabled" 0
    ∷ elt "Local" "OS" "Security" "Specific" 0
    ∷ elt "Remote" "OS" "Security" "Type" 0
    ∷ elt "Remote" "OS" "Security" "Type" 0
    ∷ elt "Remote" "OS" "Security" "Enabled" 0
    ∷ elt "Remote" "OS" "Security" "Enabled" 0
    ∷ elt "Remote" "OS" "Security" "Specific" 0
    ∷ elt "Result" "Tag" "" "" 0
    ∷ elt "Test" "UUID" "" "" 0
    ∷ elt "Minimum" "Latency" "Microseconds" "" 1048592
    ∷ elt "Maximum" "Latency" "Microseconds" "" 1048592
    ∷ elt "50th" "Percentile" "Latency" "Microseconds" 1048592
    ∷ elt "90th" "Percentile" "Latency" "Microseconds" 1048592
    ∷ elt "99th" "Percentile" "Latency" "Microseconds" 1048592
    ∷ elt "Mean" "Latency" "Microseconds" "" 1048592
    ∷ elt "Stddev" "Latency" "Microseconds" "" 1048592
    ∷ elt "Local" "Socket" "Priority" "" 0
    ∷ elt "Remote" "Socket" "Priority" "" 0
    ∷ elt "Local" "Socket" "TOS" "" 0
    ∷ elt "Remote" "Socket" "TOS" "" 0
    ∷ elt "Local" "Congestion" "Control" "Algorithm" 2097152
    ∷ elt "Remote" "Congestion" "Control" "Algorithm" 32
    ∷ elt "Local" "Fill" "File" "" 0
    ∷ elt "Remote" "Fill" "File" "" 0
    ∷ elt "Command" "Line" "" "" 0
    ∷ elt "This" "Is" "The" "End" 0
    ∷ []
