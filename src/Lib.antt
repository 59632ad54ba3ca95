-- ===== src/Lib.antt =====
-- Kernel handlers that fetch user memory twice, before and after their automatic repair.
--
-- The repository finds and repairs double fetches: a handler copies a header from user memory, checks
-- it, and copies the same memory again, which another thread of the user may have changed. Its C code
-- is the drivers that it works on, under auto_fix/bug_files, the repaired copies under
-- auto_fix/patched_files, and the confirmed cases under cocci/testdir/truecases.
--
-- Base has the shared names: Boolean tests, lists over native numbers (Lists), signed results and error
-- numbers (Int), and buffers with memcmp, memcpy and the fields of a structure (Buffer). A Field reads
-- only the bytes of its structure, which is all that the proofs use of a layout.
-- Kernel is what the handlers see of the kernel: copy_from_user, copy_to_user, kmalloc and kfree are
-- the parameter Kernel, and the state World records the blocks that are live, what was handed to the
-- user and what was handed to the device. A fetch depends on its time, so user memory is whatever the
-- other threads make of it. Kernel/Machine is such a kernel that runs, for the tests.
-- CrosDev is cros_ec_dev.c: ec_device_ioctl_xcmd with the patch (ioctl_xcmd) and without it
-- (ioctl_xcmd_bug), in CrosDev/Readmem ec_device_ioctl_readmem and ec_device_ioctl, and in
-- CrosDev/Version ec_get_version and ec_device_read, where the strings that a format takes from the
-- message are parameters.
-- CrosProto is cocci/testdir/truecases/cros_ec_proto.c: Transfer has send_command and
-- cros_ec_check_result, Query has cros_ec_query_all, Clamp has cros_ec_cmd_xfer, Packet has
-- cros_ec_prepare_tx and prepare_packet. The bus driver is the parameter Bus.
-- CrosI2c is cocci/testdir/truecases/cros_ec_i2c.c: Command has cros_ec_cmd_xfer_i2c, Packet has
-- cros_ec_pkt_xfer_i2c. i2c_transfer is the parameter I2c.
-- FileHandle is fhandle.c: handle_to_path with and without the patch, do_handle_open and
-- open_by_handle_at, and in FileHandle/Encode name_to_handle_at. File systems are parameters.
-- AacSend is ioctl_send_fib of commctrl.c with the patch (send_fib) and without it (send_fib_bug). The
-- adapter is a parameter.
-- AacContext is the rest of commctrl.c that keeps state: open_getadapter_fib (open_context, with the
-- search find_unique), next_getadapter_fib (next_fib), close_getadapter_fib (close_fib) and
-- aac_close_fib_context (close_context). A fib is a number, and what arrives while a reader waits is a
-- list of events.
-- AacSrb is aac_send_raw_srb of the same file (send_raw_srb): the two fetches, one loop (map_entries) for
-- the four kinds of list of buffers, and the way back; the layout of a request is the record SrbLayout, and
-- the log of World holds each copy into a buffer with the size of the buffer. AacSrb/Overrun has the lists
-- of 32 bits for adapters of 64, AacSrb/Listed and AacSrb/Stray
-- the indices that the way back uses, for a list with entries and without.
-- SclpCtl is sclp_ctl.c, which the repair does not change.
-- AuditTree is cocci/testdir/truecases/auditsc.c as far as it keeps references to the chunks of watched
-- trees: put_tree_ref, grow_tree_refs, unroll_tree_refs, match_tree_refs, handle_one and handle_path. The
-- linked pages are a Chain, which the current page divides; AuditTree/Unroll reads it as a stack of
-- chunks, AuditTree/Extends says what it means that a chain has grown from another.
-- AuditRules is the filters of the same file: AuditRules/Match has the comparisons of a rule's field with
-- a task, a system call and a name, AuditRules/Filter has audit_filter_rules, audit_filter_task,
-- audit_filter_syscall, audit_filter_inodes and audit_take_context. A rule about a directory uses
-- match_tree_refs of AuditTree. The state that a filter's variable holds before it is set is an argument.
-- AuditExec is audit_log_single_execve_arg (single_arg) and audit_log_execve_info of the same file, with
-- audit_string_contains_control of audit.c; the records of the log are a list of calls. AuditExec/Race has
-- what a long argument logs that changes between its two fetches.
-- AuditCore is cocci/testdir/truecases/audit.c: the settings that a record Config holds and their
-- changes (audit_log_config_change to audit_set_failure), in AuditCore/Rate audit_rate_check, in
-- AuditCore/Feature audit_set_feature, in AuditCore/Receive audit_netlink_ok and audit_receive_msg,
-- where a message is one of the data type Message and its Request has what the rest of the kernel
-- answers.
-- AuditText is what the same file writes to the buffers of the log: audit_expand, audit_log_vformat,
-- audit_log_n_hex, audit_log_n_string and audit_log_n_untrustedstring. A Buffer has the text, the room
-- behind it, and each use of that room; AuditText/Room says what stays within the room, AuditText/Read
-- what a reader makes of an untrusted string.
-- AuditStart is audit_log_start of the same file with wait_for_auditd; what a round of the wait sees,
-- of the queue, the settings and the time, is a Round, and the buffer is that of AuditText.
-- CommQueue is the queues of cocci/testdir/truecases/commsup.c: aac_get_entry, aac_queue_get,
-- aac_consumer_get and aac_consumer_free. CommQueue/Ring reads a queue as a list, CommQueue/Fifo has
-- the runs of a queue, CommQueue/Wait the wait for an entry, CommQueue/Complete aac_fib_adapter_complete. FibPool is the pool of fibs of the
-- same file: aac_fib_setup, aac_fib_alloc and aac_fib_free over the field next, with FibPool/Chain for
-- the list that it stands for, and in FibPool/Area the memory of the fibs.
-- MicVirtio is mic_virtio.c with the sizes of cocci/testdir/truecases/mic_common.h: mic_copy_dp_entry
-- with the patch (copy_dp_entry) and without it, over the bytes of the device page; in MicVirtio/Iov
-- mic_virtio_copy_to_user, mic_virtio_copy_from_user and mic_vringh_copy; in MicVirtio/Copy
-- _mic_virtio_copy and mic_virtio_copy_desc; in MicVirtio/Device mic_virtio_add_device and
-- mic_virtio_del_device, with how often each page and mapping is held. The card and the vringh library
-- are the parameters Card and Source.
--
-- A handler is a function of the state in a state monad; goto is a branch, and the code at a label
-- that several branches reach stands behind the function that holds them. Structures, numbers and
-- functions of headers that are not in the repository are records that the definitions take. size_t
-- has 64 bits, so sums of a header's size and a field of 32 bits do not wrap; where the code keeps a
-- narrower number the remainder is written out. The polling of a busy controller has the code's own
-- limit of 50 rounds as its fuel, the search for an identifier one scan more than there are contexts,
-- since each scan that fails meets a context that no other scan meets. The search of the device page
-- has its 4096 bytes as fuel, the copies by DMA the length that they copy, the log of an argument its
-- length and one more: each round takes a byte at least. The loop over the iovecs of the user has one
-- round more than there are iovecs. aac_queue_get polls as long as the list of the consumer's moves,
-- audit_log_start over the list of its rounds, the search for memory of aac_fib_setup at most as often
-- as there are fibs. handle_path runs with the list of the rounds that it meets, and is left open
-- where the list ends before it returns.
--
-- Not modelled: of the audit subsystem the names, the records of a system call, the threads that send
-- the log; of mic_virtio.c the reset and the configuration change of a device; of commctrl.c the
-- dispatch, the revision and the PCI address; of commsup.c the sending of fibs and aac_fib_complete,
-- the events of the adapter and its reset; what cros_ec_i2c.c leaves in the buffers of the device,
-- registration and probing of devices, messages to the log of the kernel, and locks other than the one
-- of cros_ec_cmd_xfer. The semantic patches and scripts are in other languages.
pub mod Base
pub mod Kernel
pub mod CrosDev
pub mod CrosProto
pub mod CrosI2c
pub mod FileHandle
pub mod AacSend
pub mod AacContext
pub mod SclpCtl
pub mod AuditTree
pub mod AuditRules
pub mod AuditExec
pub mod MicVirtio
pub mod AacSrb
pub mod AuditCore
pub mod AuditText
pub mod CommQueue
pub mod FibPool
pub mod AuditStart
