-- ===== src/Lib.antt =====
-- Breakin, a burn-in tester for new machines: the program reads out the hardware, runs the test
-- scripts of a directory again and again, counts their passes and failures, shows and logs what they
-- say, and writes its state to a file. This library models the parts below and proves properties of
-- them. Paths are from the repository's root.
--
-- How the parts interact. `main` (breakin.c) reads its options, builds the table of test scripts and
-- decodes the DMI table from a copy of /dev/mem. It follows the script of the hardware setup to its end,
-- opens the log device and the serial port, runs the benchmarks, and enters its last loop, which starts
-- every idle script, reads the scripts' output and waits for them. Messages go to the log. Beside the
-- loop a thread, `update_stats`, samples the CPU counters, the memory, the sensors, the disks, the
-- network cards and the followed log files, draws the windows, and writes all that it knows to the state
-- file; another, `do_update`, sends that to a server. Nothing is locked but the streams of stdio.
--
--   Base, Text, Number   helpers: tests on numbers, lists, options, C strings, atoi and %d
--   Trim      util.c `trim`: `trim_at` on the memory that it walks, `trim` on the string, `trim_buffer`
--             on a buffer that the string starts; proofs in Shift, Strip and Buffer
--   Options   breakin.c, the loop over getopt_long in `main`: `do_option`, `do_options`
--   Burnin    breakin.c: Script (struct burnin_scripts_t), Fork (`fork_cmd`, `run_burnin_tests`), Find
--             (`find_burnin_tests`), Poll (the loop's body for one script), Round (a turn of the loop
--             and any number of them), Descriptors (the file descriptors of a script),
--             Shared (last_msg written while it is printed); Valid, Tally, Share, Messages, Contract,
--             Find/Disable, Find/Enabled and Find/Fresh hold the proofs
--   Log       breakin.c `log_message`, `log_error`, `running_time` (Clock), and the single writes that
--             they are made of (Writes); proofs in Replay, Outputs and Threads
--   Tail      breakin.c `show_log`, `monitor_syslog`; proofs in Once and Text
--   Cpu       breakin.c `get_cpu_usage`, and `get_cpu_info` (Info); proofs in Wrap and
--             Describe
--   Disks     breakin.c `get_hd_info`, `read_string_from_file`; proofs in Found
--   Sensors   breakin.c `get_ipmi_sensors`; proofs in Table
--   Stats     breakin.c `dump_stats`; proofs in Counts
--   Dmi       dmidecode.c: Strings (`dmi_string`), Decode (`dmi_decode`), Table (`dmi_table`), Entry
--             (`checksum`, `smbios_decode`, `do_dmi_decode`); proofs in Safe, Lookup, Search
--             and Absent
--   Devmem    dmidecode.c `myread`, `mem_chunk`; proofs in Read
--   Network   breakin.c `get_nic_info`, `upload_data`, `do_update`; proofs in Cards, Updates
--             and Rescan
--   Memory    breakin.c `get_mem_usage`; proofs in Exact
--   Monitor   breakin.c `update_stats`, composed of the parts above; proofs in Valid and Follows
--   LogDevice breakin.c `start_serial`, `start_logdev`, `header_logdev`, `update_logdev_write`,
--             `update_logdev`, and its single calls of fprintf (Pieces); proofs in Begins
--   Startup   breakin.c, `main` behind its options, `run_benchmarks` and `dump_log`; Main is `main` as a
--             whole; proofs in Follow, Program and Whole
--   DiskBench bench_disk.c; proofs in Rounds and Exits
--   Screen    breakin.c `draw_stat_window`, `draw_graph`, `draw_detail_window` and `handle_keypress`
--             (Details), and `setup_screen`, `create_newwin` and `create_subwin` (Setup); Draws has
--             the calls that draw; proofs in Rows, Room, Layout and Tiles
--   Password  cryptpasswd.c
--   Hpl       hpl_calc_pq.c; proofs in Square; hpl_calc_n.c in Size
--   Examples, and Examples in most folders: the theorems at concrete inputs
--
-- Conventions. State is passed explicitly. `none` as the result of an operation stands for behaviour
-- that C leaves undefined (an access outside an object, a read from a freed stream), or for an exit
-- where the definition says so. What the kernel and the C library answer is an argument of the step
-- that asks. Numbers are natural numbers, with `%` where a C type wraps around: 2^64 for the counters
-- of a script, 2^32 for the counters of a CPU, 2^8 for a checksum. BUFSIZ is 8192. An amount that is
-- too large for a `long int` is read as the largest one, as glibc does. What the compiler places behind
-- the arrays of `draw_stat_window`, which are a byte too short, is a parameter (Screen.Frame).
--
-- Fuel. A loop of C that is not a plain recursion on a list takes fuel: the size of the memory for the
-- loops of `trim` and of strtok_r, the length of the text for fgets, the length of the table for the
-- search in `dmi_table`, 4096 rounds for the search of 64K in steps of 16, the number itself for the
-- square root, and 20 digits for a printed number of 64 bits. Each round uses up at least one unit of
-- what the fuel counts.
--
-- A loop that waits for the kernel takes the list of its answers: the reads of `myread` and of the disk
-- benchmark, which needs 1024 at most, and the rounds of the loops that follow a command, send updates
-- or run the tests. A loop that never ends is any number of its turns.
--
-- Threads. A step of one thread is a write of stdio, which holds the lock of its stream, or an access to
-- one byte; the threads' steps come in any order. Base/Interleave has the orders of whole lists.
--
-- Not modelled: the refreshes of ncurses; the interleaving of the threads, but for the log's files, the
-- last message of a script and the table of cards (ncurses promises nothing for calls from several
-- threads, so that nothing is said of the log window there); the STREAM benchmark (bench_stream.c, a
-- copy of another program); the scripts; `do_blkgetsize`, which nothing calls; and
-- `upload_handle_response`, which only multiplies its arguments. What libcurl, crypt and the kernel do
-- is an argument where it is asked. Doubles are a parameter where they are printed and a fraction where
-- they are computed.
pub mod Base
pub mod Text
pub mod Number
pub mod Options
pub mod Trim
pub mod Log
pub mod Burnin
pub mod Tail
pub mod Stats
pub mod DiskBench
pub mod Cpu
pub mod Disks
pub mod Sensors
pub mod Dmi
pub mod Devmem
pub mod Hpl
pub mod Examples
pub mod Network
pub mod LogDevice
pub mod Startup
pub mod Password
pub mod Screen
pub mod Memory
pub mod Monitor
