-- ===== src/Lib.antt =====
-- The verification library of PICO-FI, the firmware that bridges UART, USB, I2C and SPI links of a
-- Pico to TCP.
--
-- Parts of the program and the files that model them. A bus task or a socket task fills a packet
-- queue, which is read on the other side; frames are cut out of byte streams by the frame reader;
-- the network side gets its address from the address policy, which asks the ARP guard to probe.
--
--   OverwriteQueue   src/bridge/overwrite_queue.rs: `QueueState` and `OverwriteQueue`, a ring of
--                    packets. `Fifo` is its specification, `Refine`, `Front` and `Trace` the
--                    refinement, `Polling` the polls of `push`, `Reserve` the space that a session
--                    has seen.
--   SpiFrame         src/bridge/spi_frame.rs: the frames of the SPI queue.
--   UartMailbox      src/bridge/uart_mailbox.rs: `Packet`, `admit_uart` and `write_frame`.
--   Stream           src/protocol/stream.rs: `FrameReader`.
--   Frame            src/protocol/i2c.rs: framed requests and responses.
--   I2cPacket        src/protocol/i2c_packet.rs: the packet header and the mailbox of I2C v2.
--   I2cSlot          src/bridge/i2c_task.rs: the 32-byte slots of the first I2C protocol. `Codec`
--                    is their layout, `Transfer` the slots of one packet as a relation, `Transmit`
--                    how the device sends them, `Assembly` how `push_slot` puts them together.
--   I2cTask          src/bridge/i2c_task.rs: the bus task; `I2cTask/Poll` is a round of its loop.
--                    `Receive`, `Requests`, `Reply` and `RoundTrip` follow a packet between the
--                    host and the bridge's queues; `Safety`, `Handlers`, `Answers`, `Rounds`
--                    and `Runs` are the invariant; `Queue` is the queue of I2C packets.
--   HostI2c          host/i2c_backend.rs: the host's end of the same bus; `Receive` is its reader.
--   HostSpi          host/spi_backend.rs: the frames of the host on the SPI link.
--   I2cBridge        src/bridge/i2c.rs: the session between the I2C queues and the socket.
--   Usb              src/bridge/usb.rs: the command line in the USB input, and the output packets.
--   Net              src/net.rs: whole reads and writes, the handshake, the bridge frames.
--   Net/Address      src/net.rs: a round of `auto_address_task`.
--   AutoAddress      src/protocol/auto_address.rs: the address policy; `tick` is the source's match
--                    with one function for each arm.
--   Ipv4ll           src/protocol/ipv4ll.rs: candidates, ARP probes and ARP conflicts.
--   DhcpProbe        src/protocol/dhcp_probe.rs: the DISCOVER frame and `is_offer`.
--   ArpGuard         src/arp_guard.rs: `ProbeState`, and `service` and `receive` of the driver.
--   Discovery        src/protocol/discovery.rs: the messages of LAN discovery.
--   Config           src/config.rs: configuration and commands; `Config/Parse` and `Config/Render`
--                    the texts.
--   ConfigRecord     src/config_record.rs: the flash record.
--   Storage          src/storage.rs: `load`, `save` and `reset` over a flash driver.
--   TestMode         src/bridge/test.rs: the commands of the TCP test mode.
--   Commands         src/bridge/commands.rs: the local commands and the LED's cells; the texts of
--                    diagnostics are an argument.
--   Text, Prelude    texts and bytes, lists, numbers and helpers that the parts share.
--
-- Conventions. A byte is a number; where its range matters a hypothesis says so. Wrapping
-- arithmetic is written out (`% 2 ^ 32`). A record is the state, and an operation gives the new
-- state with its result. A panic is `none`, or `err` where a result is returned. A copy into a
-- buffer keeps the length of the buffer; that its ranges exist is tested where the code cuts up
-- what a peer sent (`copy_chunk`), and is otherwise part of the invariant of the state that holds
-- the buffer. Times of the address policy are numbers without a bound, since a u64 of milliseconds
-- does not end.
--
-- Bounds and fuel. The eviction loop of `push_overwrite` has one more round than there are
-- packets, the option loop of `is_offer` one more than there are bytes, the payload loop of the
-- frame reader as many as the payload has bytes, each round of which reads one at least; the
-- checksum fold has three rounds for a u32, the host's loop over the slots of a packet has one
-- more round than bytes, `write_usb_packet` as many as there are bytes, the decimal digits three
-- and five for a u8 and a u16. Each bound is that of the source's own progress, and the theorems
-- that use them show that they are enough.
--
-- Third-party code is a parameter: how many bytes a driver's read returns or a socket's call
-- moves, what the master does on the I2C bus and how it ends a read, what `select` takes, whether
-- the link is up and a transmission is granted, how heapless gathers the words of a line, and the
-- flash driver.
--
-- Not modelled: the tasks that only join sockets, timers and peripherals (src/main.rs,
-- src/lan_discovery.rs, src/bridge/spi_hw_task.rs, src/bridge/spi_pio.rs, the sessions of
-- src/bridge/spi.rs and src/bridge/uart.rs, the loops that connect and accept, the set-up of the
-- network in src/net.rs), a write to the socket that fails within the I2C session, the UART
-- shell, texts of diagnostics, the build scripts and the calls of the host's programs on their
-- devices.
pub mod Prelude
pub mod OverwriteQueue
pub mod I2cPacket
pub mod Ipv4ll
pub mod DhcpProbe
pub mod AutoAddress
pub mod ArpGuard
pub mod Discovery
pub mod Config
pub mod ConfigRecord
pub mod Frame
pub mod SpiFrame
pub mod Text
pub mod Stream
pub mod UartMailbox
pub mod Storage
pub mod TestMode
pub mod Commands
pub mod I2cSlot
pub mod HostI2c
pub mod HostSpi
pub mod I2cTask
pub mod Usb
pub mod Net
pub mod I2cBridge
