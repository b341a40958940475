-- ===== src/Lib.antt =====
-- CSIT, the test framework of FD.io: the Python libraries that Robot tests call.
--
-- The modelled part is the framework's own logic between the tests and the machines. A test takes the
-- nodes of the topology, computes a path through them, chooses CPUs for the traffic generator and for
-- network functions, builds the command lines of DPDK applications, checks that VPP's API messages are
-- the ones the framework was written for, writes VPP's start configuration, starts and pins virtual
-- machines, searches for the highest rate with acceptable loss, and groups the results of many runs.
--
--   Base, Base/*               what the components share: Boolean tests, lists, exceptions as results,
--                              integers with their decimal text, dictionaries as association lists
--                              (insertion order, missing keys as `none`), texts as lists of codes.
--   OptionString, */*          resources/libraries/python/OptionString.py. The builder is the record
--                              OptionString; each method has its name. A method that returns `self`
--                              returns the builder that the calls leave. An object is its text and its
--                              truth value, since the code takes only str(o) and bool(o) of it.
--   DpdkUtil, */*              resources/libraries/python/DpdkUtil.py, on OptionString's methods: the
--                              keyword arguments are a dictionary of objects.
--   Topology, */*              resources/libraries/python/topology.py. A node is a record of the keys
--                              the code reads, an interface a record of optional values, `interfaces`
--                              a dictionary. Methods that write return the node they leave. Query holds
--                              the methods that only read.
--   NodePath, */*              resources/libraries/python/NodePath.py, on Topology's methods. The loop of
--                              compute_path is connect_all, one round of it connect; an exception
--                              leaves the builder as far as the loop came.
--   CpuUtils, */*              resources/libraries/python/CpuUtils.py. slice_of and place are the bodies
--                              of cpu_slice_of_list_per_node and cpu_slice_of_list_for_nf behind the
--                              list of CPUs. The remote call that lists CPUs is a parameter.
--   VppApiCrc, */*             resources/libraries/python/VppApiCrc.py. The checker is the record Checker;
--                              each method gives the checker it leaves and whether it returned. The
--                              dictionaries of process_crc are narrowed by process_loop, one round per
--                              collection, and by restrict.
--   DropRateSearch, */*        resources/libraries/python/DropRateSearch.py. A rate's arithmetic is the
--                              record Ops, and the laws that a theorem needs are records beside it
--                              (Step, Halving, Growing). The abstract measure_loss is a function of the rates
--                              measured before. linear_loop and binary_search count rounds and calls,
--                              and `none` stands for more of them; the theorems give enough of them.
--   Jumpavg, */*               resources/libraries/python/jumpavg/classify.py with BitCountingGroup.py and
--                              BitCountingGroupList.py: floats and the statistics are the record Stats.
--                              The lists open_at and closed_before are arguments of classify_loop, the
--                              latter by its last element, the only one that is read.
--   MlrSearch, */*             resources/libraries/python/MLRsearch. The operations of float are the record
--                              Floats, those that can raise with a result. The measurer is a function
--                              of what it returned before, the clock of how often it was read; both are
--                              in the record World. One round of the loop of ndrpdr chooses a rate by
--                              next_rate and measures there; ndrpdr_phases is the recursion.
--   VppConfigGenerator, */*    resources/libraries/python/VppConfigGenerator.py. The nested dictionary is
--                              the tree Config. Settings holds the methods that set one value at a fixed path,
--                              Methods the others, Commands those that run something on the node. Every
--                              method gives the generator it leaves and how it ends. Outline reads the
--                              text of a configuration back, a line at a time.
--   Ssh, DutSetup              resources/libraries/python/ssh.py (exec_cmd, exec_cmd_no_error) and
--                              resources/libraries/python/DUTSetup.py (get_hugepages_info,
--                              check_huge_page). A run is the list of commands sent so far and how it
--                              ends; the answers of the node are a function of that list.
--   QemuUtils, */*             resources/libraries/python/QemuUtils.py, on OptionString, Ssh and DutSetup.
--                              Options and Interfaces add to the command line, Process has the threads
--                              and the kill, Guest the guest agent, Boot the waits and the start, Vnf
--                              and Testpmd the network function that runs in the machine.
--
-- Integers of Python are unbounded, so numbers are natural numbers or integers without wrap-around. A
-- subtraction is written where the code has a guard that keeps it from going below zero. Loops are
-- recursion on the list they run over; the search of add_new_port for a free name has the 999999 rounds
-- that the source gives it; the searches over rates are the only ones with fuel, for which enough rounds
-- are the height of the start rate plus two, and enough calls the size of the interval plus two, and for
-- MLRsearch one more than the readings of the clock that the timeout takes.
--
-- Not modelled: the remote calls (the connection behind Ssh, VPP's binary API, containers), the YAML and
-- JSON parsers, the filling of template files and the directory walk, whose results are arguments;
-- console output; the statistics whose content is floating point (PLRsearch, the arithmetic of jumpavg's
-- statistics); the generators of tests, reports and documentation; traffic profiles and scripts, which
-- are packet templates.
pub mod Base
pub mod OptionString
pub mod DpdkUtil
pub mod Topology
pub mod Ssh
pub mod DutSetup
pub mod QemuUtils
pub mod NodePath
pub mod VppApiCrc
pub mod CpuUtils
pub mod DropRateSearch
pub mod Jumpavg
pub mod MlrSearch
pub mod VppConfigGenerator
