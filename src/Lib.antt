-- ===== src/Lib.antt =====
-- osmo-msc is a mobile switching centre: it holds the visitor location register (VLR) of the
-- subscribers in its area (src/libvlr), and serves their calls and messages (src/libmsc). This
-- library models parts of it and proves what makes them correct.
--
-- The parts and their files:
--
-- Fsm.antt is what libosmocore's FSM core does with the masks of a state table. The core is not part
-- of this repository, so the state machines below take it as a parameter, a record of two functions
-- with their documented behaviour as laws: a state change goes ahead exactly if the out_state_mask of
-- the current state names the new one, and an event reaches the action of the current state exactly if
-- its in_event_mask names it.
--
-- Vlr/Subscr.antt is the authentication data of struct vlr_subscr (include/osmocom/vlr/vlr.h) with
-- the selection, the use and the update of the authentication tuples (src/libvlr/vlr_auth_fsm.c,
-- src/libvlr/vlr.c). The array of five tuples is a function of the index, a pointer into it an index.
-- Vlr/Reject.antt maps the causes of GSUP messages to reject causes (src/libvlr/vlr.c).
--
-- Vlr/Auth.antt is the state machine of Authenticate_VLR (src/libvlr/vlr_auth_fsm.c), with its types
-- and masks in Vlr/Auth/Types.antt and the check of a response in Vlr/Auth/Response.antt. A handler is
-- a function from the instance to the instance; the calls that it makes of the HLR, the phone and the
-- parent machine are recorded in a log, newest first. A failed OSMO_ASSERT and a null last_tuple set
-- `assert_failed`. An instance keeps its fields after its termination, as it does in the program,
-- which frees it later (osmo_fsm_set_dealloc_ctx() in src/osmo-msc/msc_main.c).
--
-- Vlr/AccessRequest.antt is the state machine of Process_Access_Request_VLR
-- (src/libvlr/vlr_access_req_fsm.c), which starts the authentication, commands ciphering, updates the
-- HLR and tells its parent the result, with its types and masks in Vlr/AccessRequest/Types.antt. What
-- the callbacks of the MSC return, what a lookup of the subscriber finds, and what others write to the
-- subscriber between two events (the authentication its security context, the HLR update its flags)
-- come in with each event, as an `Env`.
--
-- Vlr/LocationUpdate.antt is the location update (src/libvlr/vlr_lu_fsm.c): its states, events and
-- record in Vlr/LocationUpdate/Types.antt, the masks in Masks.antt, the end in Result.antt, the child
-- Location_Update_Completion_VLR with its own child Subscriber_Present_VLR in Completion.antt, the
-- child Update_HLR_VLR and the way from one node of the process to the next in Nodes.antt, and the
-- actions of the states, dispatch, set-up and cancellation in LocationUpdate.antt. What a child tells
-- its parent is handled before the child's dispatch returns, as in the code. What a lookup finds, what
-- the callbacks of the MSC return and whether a TMSI is free come in with each event. The names of the
-- functions are those of the code, less the prefix vlr_loc_upd_.
--
-- Vlr/Tmsi.antt is the choice of a new TMSI (src/libvlr/vlr.c). Random numbers and the limitation to
-- ranges of network resource identifiers are parameters.
--
-- Vlr/Sgs.antt is the SGs association of a subscriber with an MME (src/libvlr/vlr_sgs.c and
-- src/libvlr/vlr_sgs_fsm.c). Vlr/Sgs/Types.antt has its states, masks and data,
-- Vlr/Sgs/Association.antt the handlers of its state machine, and Vlr/Sgs/Ts5.antt its paging with the
-- timer Ts5 and the counter of pages in flight, which all subscribers share. The callbacks that the
-- association is given are those of src/libmsc/sgs_iface.c, so the paths from a handler through a
-- callback back into the association are followed. Vlr/Sgs.antt itself has the operations of
-- vlr_sgs.c and what of src/libvlr/vlr.c calls them, for one subscriber and for a list of them. The
-- HLR, the MME, the clock and the configuration come in with each input, as an `Env`; the two timers
-- run out by inputs of their own, and what the machines for A and Iu, src/libmsc/sgs_iface.c and the HLR
-- write to a subscriber are inputs as well.
--
-- CallControl.antt is the call control of src/libmsc/gsm_04_08_cc.c. CallControl/Types.antt has the
-- states, timers and messages, CallControl/Release.antt the changes of state, the timers and what ends
-- a call, CallControl/FromMs.antt the handlers of the phone's messages with the table datastatelist,
-- and CallControl/FromMncc.antt those of MNCC's with the table downstatelist, the paging and the RTP
-- port. The calls of a table's function are a function of the message, and its states another. What
-- is sent is recorded; the socket to MNCC does not call back into the call control, as the internal
-- MNCC handler would. Of the information elements of a message only the cause is modelled, and what
-- codecs, bearer capabilities and the assignment come to is given with each input, as an `Env`.
--
-- Csd.antt is circuit switched data (src/libmsc/csd_bs.c, src/libmsc/csd_filter.c): the table of
-- bearer services in Csd/BearerService.antt, the lists of them in Csd/BsList.antt, their conversion to
-- and from bearer capabilities in Csd/BearerCap.antt and to the channel type of an assignment in
-- Csd/ChannelType.antt, and the filter, which intersects the lists of the RAN, the phone, the cell and
-- the remote side, in Csd/Filter.antt. An array of CSD_BS_MAX entries is a function of the index.
-- Values of enums of libosmocore and libosmogsm that the code names are constructors, with one more
-- for every other value; the numbers of the two intermediate rates are parameters.
--
-- Transaction.antt is the list of transactions (src/libmsc/transaction.c): lookup, allocation and the
-- assignment of identifiers; release is in Transaction/Free.antt. What the release of a transaction
-- does in its protocol is a parameter, which may release other transactions. The loops that release
-- one transaction after the other have as many rounds as the list has transactions.
--
-- Paging.antt is the paging of a subscriber (src/libmsc/paging.c): the requests, the flag, the timer and
-- the use token that it keeps, and the two subscribers of a transfer. Whether a RAN delivers a request
-- is a parameter.
--
-- Cdr/Ber.antt is the BER writer of the encoder of call detail records (src/osmo-msc-cdrenc/
-- huawei_ber.c): the buffer, tags, lengths, elements and integers; its telephone numbers are in
-- Cdr/Tbcd.antt. What it appends is judged by readers, in Cdr/Ber/Reader.antt and
-- Cdr/Tbcd/RoundTrip.antt, which are no part of the program.
--
-- Bounds: use counts and key sequences are C ints that stay non-negative and are natural numbers
-- here; use counts are taken not to reach 2^31. A response length is passed on as a uint8_t, so
-- modulo 256. Most loops run over an array of fixed size or over a list. The loop of
-- csd_bs_list_intersection() has as much fuel as the list has entries, since each round leaves one
-- entry less to look at; those that take a number apart have the rounds that the C type allows (5
-- groups of seven bits for an int, 8 bytes for a size_t); the one that doubles the capacity of a BER
-- buffer has as many rounds as bytes are needed. The search for a TMSI has the 100 tries of the
-- code, the search for a transaction identifier its seven rounds. Call ids are counted modulo 2^32;
-- TMSIs are numbers below 2^32. A size_t has 64 bits. A call comes to its end within
-- four timeouts of its timers. The cap of 64 unconfirmed pages over SGs is the code's.
--
-- Not modelled: timers but for those of paging, of SGs and of calls, logging, memory allocation but
-- for the start of a machine, the encoding of messages, and the other parts of the program: the SGs
-- and MNCC interfaces, the roles of a connection, group calls, short messages, the RAN codecs and the
-- management interfaces.
mod Base
pub mod Fsm
pub mod Cdr
pub mod Csd
pub mod Vlr
pub mod Transaction
pub mod Paging
pub mod CallControl
