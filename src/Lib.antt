-- ===== src/Lib.antt =====
-- Verification of midas-util: the kexec boot loader of boot/, the tool of audio/ that applies mixer
-- paths, gpioutil.c, getdtb.c, blank.c and reboot.c.
--
-- boot/main.c reads a configuration (boot/config.c, by inih), finds the device that the machine is
-- by the kernel's command line (boot/util.c), loads a kernel and a ramdisk, from an Android boot
-- image (boot/bootimage.c) or from files (boot/kernel.c, boot/util.c), loads a device tree, applies
-- the overlays that are configured for the device, for a pin (boot/gpio.c) or for a parameter of
-- the command line, writes the command line and the ramdisk's place into the tree (boot/ufdt.c),
-- checks the kernel, and hands three segments to kexec. audio/xml.c reads paths of a mixer by
-- expat, and audio/set_paths.c applies one. Both programs keep lists of `void *` (llist.c).
--
-- Files and sources:
--   Base        shared names, lists, faults, integers, masks
--   CString     the functions of string.h and stdlib.h that the sources call, on lists of codes
--   Config      boot/config.h and boot/config.c; handle_* are the functions of the same names;
--               Config.Pointers has handle_overlay and handler on memory, and Config.File and
--               Config.RoundTrip relate the lines of a file to the configuration that is read
--   Gpio        boot/gpio.c
--   Llist       boot/llist.c and audio/llist.c, on a heap; list_next_boot and list_next_audio are
--               the two versions of listNext
--   Util        boot/util.c and boot/util.h
--   BootImage   boot/bootimg.h and boot/bootimage.c
--   Kernel      boot/kernel.c
--   Ufdt        boot/ufdt.c; Ufdt.Selected says which overlays are for a device, Ufdt.Space what room
--               libfdt needs in a tree; Ufdt.Memory has apply_overlays on the list in memory
--   Main        boot/main.c; Main.Ready says what a machine needs to boot, and
--               Main.Told what the kernel reads in the tree
--   Audio       audio/mixer.h, audio/xml.c and audio/set_paths.c; Audio.Pointers has them on memory
--   Gpioutil    gpioutil.c
--   Getdtb      getdtb.c
--   Tools       blank.c and reboot.c
--   Tests, and the Tests, ReadyTests, ReadyWorld and Fixtures of a part, hold runs on small inputs.
--
-- The model. A run that would read or write memory that is not there is the value `fault` of `Run`,
-- or `crash` of `Exec` in Main, where `exit` is a `return` of `main`. A `char *` is a list of bytes,
-- or `none` for NULL. Words of 32 and 64 bits are natural numbers with their wrap-around written
-- out. The target is a 32-bit machine. The kernel's answers, as `Os`, `GpioDev` and `Machine`, and
-- the libraries inih, libfdt, libufdt, expat and tinyalsa are parameters; `Documented` is the
-- behaviour that theorems ask of inih, or of the kernel in Tools; `SpaceLaws` and `ValueLaws` are
-- what they ask of libfdt, on valid trees with room. An `open` of the same path gives the same answer
-- each time, and `strdup`, `snprintf` and `calloc` of small sizes succeed.
-- In Config, Ufdt and Audio a linked list is the list of its values; Llist, Config.Pointers,
-- Ufdt.Memory and Audio.Pointers have it on a heap, where a list of addresses says what `malloc` and
-- `calloc` give, and nothing is freed.
--
-- Fuel. The loops of Llist, Config.Pointers, Ufdt.Memory and Audio.Pointers over a chain of nodes run
-- on fuel, one unit for each node and one more; a list of a file or a document has no more nodes than
-- the file has lines, or the document calls of expat. All other loops are structural.
--
-- Not modelled: output to the terminal, the debug dumps of boot/main.c, copies of other projects
-- (boot/inih, boot/libufdt), scripts and builds.
pub mod Base
pub mod CString
pub mod Gpio
pub mod Config
pub mod Llist
pub mod Tools
pub mod Util
pub mod BootImage
pub mod Kernel
pub mod Ufdt
pub mod Main
pub mod Audio
pub mod Gpioutil
pub mod Getdtb
pub mod Tests
